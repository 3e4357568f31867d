-- ===== src/Store/RunRows.antt =====
-- The repository of agent runs, with what the table `agent_runs` of
-- core/infrastructure/database/models.py refuses.
use aura_automated_user_rag.Base.{
  ℕ, Bool, true, false, not, ◌&&◌, if◌then◌else◌, Option, none, some, [], ◌∷◌, ◌++◌, select, modify,
  integrity_error, data_error,
}
use aura_automated_user_rag.Domain.Events.{Value, text, ident, count, integer, flag, null, json}
use aura_automated_user_rag.Domain.Agents.{Agent}
use aura_automated_user_rag.Domain.Agents.Runs.{AgentRun}
use aura_automated_user_rag.Store.{Database}
use aura_automated_user_rag.Store.Work.{Uow, throw, writes}
use aura_automated_user_rag.Store.TaskRows.{get_task}
use aura_automated_user_rag.Store.Rows.{get_mission_row, get_execution}

abbrev pub run_key : AgentRun → ℕ
run_key run = run.id

abbrev pub agent_key : Agent → ℕ
agent_key agent = agent.id

abbrev pub is_there : {A : Type 0} → Option A → Bool
is_there none = false
is_there (some _) = true

-- The foreign keys of `AgentRunModel`: the mission, the task, the execution and the agent are there.
abbrev pub references_met : AgentRun → Database → Bool
references_met run d =
    is_there (get_mission_row run.mission_id d)
    && (is_there (get_task run.task_id d)
        && (is_there (get_execution run.task_execution_id d)
            && is_there (select agent_key run.agent_id d.agents)))

-- What `final_result` takes, a column of nullable text.
abbrev pub is_text : Value → Bool
is_text (text _) = true
is_text null = true
is_text (ident _) = true
is_text (count _) = false
is_text (integer _) = false
is_text (flag _) = false
is_text (json _) = false

abbrev pub insert_run : AgentRun → Database → Database
insert_run run d = record d { agent_runs = d.agent_runs ++ run ∷ [] }

-- `agent_runs.create`, `agent_runs.get`
unfoldable pub create_run : AgentRun → Uow (Unit {0})
create_run run s =
    if not (is_text run.final_result)
    then throw data_error s
    else if references_met run s.pending
    then writes (insert_run run) s
    else throw integrity_error s

unfoldable pub get_run : ℕ → Database → Option AgentRun
get_run run_id d = select run_key run_id d.agent_runs

abbrev pub write_run : AgentRun → AgentRun → AgentRun
write_run run row = record row {
  status = run.status;
  iteration_count = run.iteration_count;
  tool_call_count = run.tool_call_count;
  started_at = run.started_at;
  completed_at = run.completed_at;
  failure_reason = run.failure_reason;
  final_result = run.final_result;
  updated_at = run.updated_at;
}

unfoldable pub change_run : AgentRun → Database → Database
change_run run d = record d { agent_runs = modify run_key run.id (write_run run) d.agent_runs }

-- An update of a row that is there with a result that its column does not take.
abbrev pub refuses : AgentRun → Database → Bool
refuses run d = not (is_text run.final_result) && is_there (get_run run.id d)

-- `agent_runs.update`
unfoldable pub update_run : AgentRun → Uow (Unit {0})
update_run run s = if refuses run s.pending then throw data_error s else writes (change_run run) s
