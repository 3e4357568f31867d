-- ===== src/Gateway/Commands.antt =====
-- The tools that run commands in the environment of a task execution.
use aura_automated_user_rag.Base.{
  ℕ, ℤ, Bool, true, false, String, ◌≟◌, string_eq, Option, none, some, List, [], ◌∷◌, ltb, ◌&&◌,
  not, filter, Result, ok, raise, if◌then◌else◌,
}
use aura_automated_user_rag.Domain.Events.{Value, Metadata, text, count, flag, integer, null}
use aura_automated_user_rag.Domain.Executions.{
  ExecutionEnvironment, EnvironmentStatus, environment_status_eq, ExecutionCommand, CommandResult,
  CommandStatus, command_status_eq, command_value,
}
use aura_automated_user_rag.Domain.Agents.Runs.{AgentRun}
use aura_automated_user_rag.Domain.Agents.Tools.{ToolResult, refused}
use aura_automated_user_rag.Store.{Database}
use aura_automated_user_rag.Store.Work.{Script}
use aura_automated_user_rag.Store.AgentRows.{environments_of_execution}
use aura_automated_user_rag.Gateway.{Host, CommandInput, caught}
use aura_automated_user_rag.Gateway.Files.{validate_worktree_path}

-- The truth of an optional path.
abbrev pub is_given : Option String → Bool
is_given none = false
is_given (some path) = not (path ≟ "")

-- `max(envs, key=lambda e: e.created_at)`: the first of the latest.
abbrev pub newest : ExecutionEnvironment → List ExecutionEnvironment → ExecutionEnvironment
newest best [] = best
newest best (env ∷ envs) = newest (if ltb best.created_at env.created_at then env else best) envs

abbrev pub latest : List ExecutionEnvironment → Option ExecutionEnvironment
latest [] = none
latest (env ∷ envs) = some (newest env envs)

abbrev pub is_usable : ExecutionEnvironment → Bool
is_usable env = (env.status ≟ EnvironmentStatus.ready) && is_given env.worktree_path

-- The environment in which `_run_command` and `_run_tests` run.
unfoldable pub usable_environment : ℕ → Database → Option ExecutionEnvironment
usable_environment task_execution_id d =
    latest (filter is_usable (environments_of_execution task_execution_id d))

abbrev pub command_of : CommandInput → String → ExecutionCommand
command_of input working_directory = record {
  executable = input.executable;
  arguments = input.arguments;
  working_directory = working_directory;
  timeout_seconds = input.timeout_seconds;
  environment = [];
  stdin = none;
}

abbrev pub integer_or_null : Option ℤ → Value
integer_or_null none = null
integer_or_null (some n) = integer n

abbrev pub command_entries : CommandResult → Metadata
command_entries result =
    ("status", text (command_value result.status))
    ∷ ("exit_code", integer_or_null result.exit_code)
    ∷ ("stdout", text result.stdout)
    ∷ ("stderr", text result.stderr)
    ∷ ("duration_ms", count result.duration_ms)
    ∷ ("timed_out", flag result.is_timed_out)
    ∷ ("output_truncated", flag result.output_truncated)
    ∷ []

module _ (host : Host) where
  abbrev pub command_output : CommandResult → ToolResult
  command_output result = record {
    success = result.status ≟ CommandStatus.succeeded;
    output = some (record {
      shown = host.shown (command_entries result);
      truthy = true;
      entries = some (command_entries result);
    });
    error = result.failure_reason;
    metadata = [];
  }

  -- The call of the execution service, and its exceptions.
  abbrev pub execute_in : ExecutionEnvironment → ExecutionCommand → Script ToolResult
  execute_in env command d =
      let (r, d') = host.execute_command env.id command d in (ok (caught host command_output r), d')

  module _ (worktree_path : String) (agent_run : AgentRun) where
    abbrev pub command_within :
        CommandInput → ExecutionEnvironment → Option String → Script ToolResult
    command_within input env none d = (ok (refused (some "Working directory outside worktree")), d)
    command_within input env (some cmd_wd) d = execute_in env (command_of input cmd_wd) d

    abbrev pub command_with : CommandInput → Option ExecutionEnvironment → Script ToolResult
    command_with input none d = (ok (refused (some "No ready execution environment available")), d)
    command_with input (some env) d =
        command_within input env
          (validate_worktree_path host.paths worktree_path input.working_directory) d

    abbrev pub run_parsed : Result CommandInput → Script ToolResult
    run_parsed (raise e) d = (raise e, d)
    run_parsed (ok input) d =
        command_with input (usable_environment agent_run.task_execution_id d) d

    -- `_run_command`
    unfoldable pub run_command : Metadata → Script ToolResult
    run_command arguments d = run_parsed (host.parse_command arguments) d

    abbrev pub tests_with : ExecutionCommand → Option ExecutionEnvironment → Script ToolResult
    tests_with command none d = (ok (refused (some "No ready execution environment available")), d)
    tests_with command (some env) d = execute_in env command d

    abbrev pub tests_at : CommandInput → Option String → Script ToolResult
    tests_at input none d = (ok (refused (some "Access denied")), d)
    tests_at input (some real_path) d =
        tests_with (command_of input real_path) (usable_environment agent_run.task_execution_id d) d

    abbrev pub test_parsed : Result CommandInput → Script ToolResult
    test_parsed (raise e) d = (raise e, d)
    test_parsed (ok input) d =
        tests_at input (validate_worktree_path host.paths worktree_path input.working_directory) d

    -- `_run_tests`
    unfoldable pub run_tests : Metadata → Script ToolResult
    run_tests arguments d = test_parsed (host.parse_tests arguments) d
