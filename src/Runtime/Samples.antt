-- ===== src/Runtime/Samples.antt =====
-- A run that reads a file and finishes, and one that is late from the start.
use aura_automated_user_rag.Base.{
  ℕ, ltb, Bool, true, false, String, Option, none, some, List, [], ◌∷◌, ◌≡◌, refl, Result, ok,
  raise, Exception, integrity_error, data_error, select, modify, if◌then◌else◌,
}
use aura_automated_user_rag.Domain.Events.{shift, text, json}
use aura_automated_user_rag.Domain.Missions.{MissionStatus}
use aura_automated_user_rag.Domain.Tasks.{Task, TaskStatus, transition as task_transition}
use aura_automated_user_rag.Domain.Agents.{Agent, AgentType, AgentStatus}
use aura_automated_user_rag.Domain.Agents.Runs.{AgentRun, AgentRunStatus, transition}
use aura_automated_user_rag.Domain.Agents.Tools.{AgentDecision, ToolCall}
use aura_automated_user_rag.Domain.Samples.{ambient, task_of, database_of}
use aura_automated_user_rag.Store.{Database}
use aura_automated_user_rag.Store.TaskRows.{get_task, update_task}
use aura_automated_user_rag.Store.RunRows.{create_run, update_run, change_run, get_run}
use aura_automated_user_rag.Store.Rows.{get_mission_row, get_execution, append_event}
use aura_automated_user_rag.Store.AgentRows.{calls_of_run, create_tool_call, update_tool_call}
use aura_automated_user_rag.Execution.Paths.{resolve_within_directory}
use aura_automated_user_rag.Gateway.Files.{validate_worktree_path, read_file}
use aura_automated_user_rag.Gateway.Calls.{execute_tool, execute_tool_impl}
use aura_automated_user_rag.Coordinator.Claim.{new_execution, new_lease}
use aura_automated_user_rag.Coordinator.Finish.{complete_task}
use aura_automated_user_rag.Coordinator.Samples.{coordinator}
use aura_automated_user_rag.Gateway.Samples.{host, policy, agent_run}
use aura_automated_user_rag.Runtime.{Runtime, Round}
use aura_automated_user_rag.Runtime.Finish.{transition_task, complete_run, completed_run, fail_run}
use aura_automated_user_rag.Runtime.Loop.{run, loop, round, get_agent_decision, validate_decision}
use aura_automated_user_rag.Runtime.Returns.{Returns, run-late}
use aura_automated_user_rag.Runtime.Refinement.{Refines, run_end-Refines}
use aura_automated_user_rag.Runtime.Completion.{complete_run-complete_task}

abbrev agent : Agent
agent = record {
  id = 7;
  name = "coder";
  agent_type = AgentType.coding_agent;
  version = "1.0.0";
  capabilities = [];
  status = AgentStatus.active;
  created_at = 0;
  updated_at = 0;
}

abbrev runtime : Runtime
runtime = record {
  agent_policy = policy;
  agent = agent;
  task_id = 2;
  task_execution_id = 1000;
  agent_id = 7;
  worktree_path = "/work";
}

abbrev decision : String → AgentDecision
decision action_type = record {
  action_type = action_type;
  target = "file";
  arguments = ("summary", text "read it") ∷ [];
  rationale = "";
  expected_result = "";
}

-- The model reads once and then finishes.
abbrev answer : AgentRun → Option Task → List ToolCall → Option AgentDecision
answer agent_run task calls =
    some (decision (if ltb 0 agent_run.iteration_count then "FINISH_TASK" else "READ_FILE"))

abbrev rounds : Bool → ℕ → Round
rounds is_late k = record {
  is_late = is_late;
  ambient = shift 100 ambient;
  host = host;
  generate = answer;
}

-- The rows that the run refers to, for a task of this status.
abbrev database : Database
database = record (database_of MissionStatus.executing (task_of 2 TaskStatus.running ∷ []) []) {
  task_executions =
      record (new_execution ambient (coordinator 8) (task_of 2 TaskStatus.running)) { id = 1000 }
      ∷ [];
  agents = agent ∷ [];
}

abbrev bare : Database
bare = database_of MissionStatus.executing (task_of 2 TaskStatus.running ∷ []) []

-- A run of an agent that is missing is refused.
unknown_agent_is_refused : run runtime (rounds false) ambient bare ≡ (raise integrity_error, bare)
unfolding run create_run get_task get_mission_row get_execution select
unknown_agent_is_refused = refl

-- A model that finishes at once with a summary that is not a text.
abbrev unreadable : ℕ → Round
unreadable k = record (rounds false k) {
  generate =
      λ _ _ _. some (record (decision "FINISH_TASK") { arguments = ("summary", json "[]") ∷ [] });
}

no_text_is_refused : (run runtime unreadable ambient database).0 ≡ raise data_error
unfolding run loop round transition get_agent_decision complete_run get_task get_mission_row
    get_execution get_run create_run update_run change_run append_event calls_of_run select modify
no_text_is_refused = refl

complete_run-complete_task_example :
    (x : Exception) × (complete_task ambient
        (coordinator 8)
        (task_of 2 TaskStatus.running)
        (new_execution ambient (coordinator 8) (task_of 2 TaskStatus.running))
        (new_lease ambient (coordinator 8) (task_of 2 TaskStatus.running))
        30
        (complete_run ambient
          (agent_run AgentRunStatus.running)
          (decision "FINISH_TASK")
          database).1
      ≡ (
        raise x,
        (complete_run ambient
            (agent_run AgentRunStatus.running)
            (decision "FINISH_TASK")
            database).1,
      ))
unfolding get_task select complete_run update_run change_run transition transition_task
    task_transition get_execution update_task
complete_run-complete_task_example =
    complete_run-complete_task ambient (agent_run AgentRunStatus.running) (decision "FINISH_TASK")
      database (task_of 2 TaskStatus.running) refl refl refl
      (completed_run ambient (agent_run AgentRunStatus.running) (decision "FINISH_TASK")) refl
      ambient (coordinator 8) (task_of 2 TaskStatus.running)
      (new_execution ambient (coordinator 8) (task_of 2 TaskStatus.running))
      (new_lease ambient (coordinator 8) (task_of 2 TaskStatus.running)) 30 refl

-- The status and the number of iterations of the run that is returned.
abbrev outcome : Result (Option AgentRun) × Database → Option (AgentRunStatus × ℕ)
outcome (ok (some r), d) = some (r.status, r.iteration_count)
outcome (ok none, d) = none
outcome (raise e, d) = none

run_reads_and_finishes :
    outcome (run runtime (rounds false) ambient database) ≡ some (AgentRunStatus.completed, 1)
unfolding run loop round transition get_agent_decision validate_decision complete_run execute_tool
    execute_tool_impl read_file validate_worktree_path resolve_within_directory get_task
    calls_of_run select create_run update_run get_mission_row get_execution change_run get_run
    modify append_event update_tool_call create_tool_call transition_task task_transition
    update_task
run_reads_and_finishes = refl

run-late_example :
    (last : AgentRun) × ((run runtime (rounds true) ambient database).0 ≡ ok (some last))
    × (last.status ≡ AgentRunStatus.ready)
    × (last.failure_reason ≡ some "Runtime timeout exceeded")
unfolding get_task get_mission_row get_execution select
run-late_example = run-late runtime (rounds true) ambient database refl refl

run_end-Refines_example :
    Refines database
      (complete_run ambient (agent_run AgentRunStatus.running) (decision "FINISH_TASK") database).1
    × Refines database (fail_run ambient (agent_run AgentRunStatus.running) "no answer" database).1
run_end-Refines_example =
    run_end-Refines ambient (agent_run AgentRunStatus.running) (decision "FINISH_TASK") "no answer"
      database
