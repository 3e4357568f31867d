-- ===== src/Coordinator/Execute/Samples.antt =====
-- An execution during which the lease expires.
use aura_automated_user_rag.Base.{
  true, none, some, [], ◌∷◌, ◌≡◌, refl, ok, raise, stale_ownership_error, select,
}
use aura_automated_user_rag.Domain.Missions.{MissionStatus}
use aura_automated_user_rag.Domain.Tasks.{TaskStatus}
use aura_automated_user_rag.Domain.Executions.{ExecutionEnvironment, EnvironmentStatus}
use aura_automated_user_rag.Domain.Events.{null}
use aura_automated_user_rag.Domain.Agents.Runs.{AgentRun, AgentRunStatus}
use aura_automated_user_rag.Domain.Samples.{ambient, task_of, mission_of, database_of}
use aura_automated_user_rag.Store.{Database}
use aura_automated_user_rag.Store.Rows.{get_mission_row, get_lease}
use aura_automated_user_rag.Coordinator.Claim.{new_execution, new_lease}
use aura_automated_user_rag.Coordinator.Samples.{coordinator}
use aura_automated_user_rag.Coordinator.Execute.{Services, execute_claimed}
use aura_automated_user_rag.Coordinator.Execute.Ownership.{execute_claimed-run_stale}

abbrev environment : ExecutionEnvironment
environment = record {
  id = 20;
  mission_id = 1;
  task_id = 2;
  execution_id = 1000;
  status = EnvironmentStatus.ready;
  worktree_path = some "/work";
  base_commit_sha = none;
  created_at = 0;
  started_at = none;
  completed_at = none;
  failure_reason = none;
  metadata = [];
}

abbrev run : AgentRun
run = record {
  id = 30;
  mission_id = 1;
  task_id = 2;
  task_execution_id = 1000;
  agent_id = 7;
  status = AgentRunStatus.completed;
  iteration_count = 1;
  tool_call_count = 0;
  max_iterations = 10;
  max_tool_calls = 10;
  max_runtime_seconds = 600;
  max_failed_actions = 5;
  started_at = none;
  completed_at = none;
  failure_reason = none;
  final_result = null;
  created_at = 0;
  updated_at = 0;
}

abbrev services : Services
services = record {
  create_environment = λ _ _ _ d. (ok environment, d);
  run_agent = λ _ _ _ _ d. (ok run, d);
  verify = λ _ _ _ _ _ d. (ok (true, none), d);
  str = λ _. "error";
}

abbrev database : Database
database = database_of MissionStatus.executing (task_of 2 TaskStatus.running ∷ []) []

execute_claimed-run_stale_example :
    execute_claimed ambient
      (coordinator 8)
      services
      (task_of 2 TaskStatus.running)
      (new_execution ambient (coordinator 8) (task_of 2 TaskStatus.running))
      (new_lease ambient (coordinator 8) (task_of 2 TaskStatus.running))
      database
    ≡ (raise stale_ownership_error, database)
unfolding get_mission_row get_lease select
execute_claimed-run_stale_example =
    execute_claimed-run_stale ambient (coordinator 8) services (task_of 2 TaskStatus.running)
      (new_execution ambient (coordinator 8) (task_of 2 TaskStatus.running))
      (new_lease ambient (coordinator 8) (task_of 2 TaskStatus.running)) database database database
      (mission_of MissionStatus.executing) environment "/work" run refl refl refl refl refl
      (λ held found _. cc)
