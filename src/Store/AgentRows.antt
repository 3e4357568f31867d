-- ===== src/Store/AgentRows.antt =====
-- The repositories of execution environments, commands, artifacts and calls of tools.
use aura_automated_user_rag.Base.{ℕ, Option, List, [], ◌∷◌, ◌++◌, ◌==◌, filter, select, modify}
use aura_automated_user_rag.Domain.Executions.{ExecutionEnvironment, CommandResult, Artifact}
use aura_automated_user_rag.Domain.Agents.Tools.{ToolCall}
use aura_automated_user_rag.Store.{Database}

abbrev pub environment_key : ExecutionEnvironment → ℕ
environment_key env = env.id

abbrev pub call_key : ToolCall → ℕ
call_key call = call.id

-- `execution_environments.create`, `.get`, `.update`, `.get_by_task_execution`
unfoldable pub create_environment_row : ExecutionEnvironment → Database → Database
create_environment_row env d = record d {
  execution_environments = d.execution_environments ++ env ∷ [];
}

unfoldable pub get_environment : ℕ → Database → Option ExecutionEnvironment
get_environment env_id d = select environment_key env_id d.execution_environments

abbrev pub write_environment : ExecutionEnvironment → ExecutionEnvironment → ExecutionEnvironment
write_environment env row = record row {
  status = env.status;
  worktree_path = env.worktree_path;
  base_commit_sha = env.base_commit_sha;
  started_at = env.started_at;
  completed_at = env.completed_at;
  failure_reason = env.failure_reason;
  metadata = env.metadata;
}

unfoldable pub update_environment : ExecutionEnvironment → Database → Database
update_environment env d = record d {
  execution_environments =
      modify environment_key env.id (write_environment env) d.execution_environments;
}

unfoldable pub environments_of_execution : ℕ → Database → List ExecutionEnvironment
environments_of_execution task_execution_id d =
    filter (λ env. env.execution_id == task_execution_id) d.execution_environments

-- `command_executions.create`, `artifacts.create`
unfoldable pub create_command_execution : CommandResult → Database → Database
create_command_execution result d = record d {
  command_executions = d.command_executions ++ result ∷ [];
}

unfoldable pub create_artifact : Artifact → Database → Database
create_artifact artifact d = record d { artifacts = d.artifacts ++ artifact ∷ [] }

-- `tool_calls.create`, `.get`, `.get_by_agent_run`, `.update`
unfoldable pub create_tool_call : ToolCall → Database → Database
create_tool_call call d = record d { tool_calls = d.tool_calls ++ call ∷ [] }

unfoldable pub get_tool_call : ℕ → Database → Option ToolCall
get_tool_call call_id d = select call_key call_id d.tool_calls

unfoldable pub calls_of_run : ℕ → Database → List ToolCall
calls_of_run agent_run_id d = filter (λ call. call.agent_run_id == agent_run_id) d.tool_calls

abbrev pub write_call : ToolCall → ToolCall → ToolCall
write_call call row = record row {
  policy_decision = call.policy_decision;
  policy_reason = call.policy_reason;
  status = call.status;
  started_at = call.started_at;
  completed_at = call.completed_at;
  result_summary = call.result_summary;
  failure_reason = call.failure_reason;
}

unfoldable pub update_tool_call : ToolCall → Database → Database
update_tool_call call d = record d {
  tool_calls = modify call_key call.id (write_call call) d.tool_calls;
}
