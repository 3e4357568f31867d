-- ===== src/Runtime/Finish.antt =====
-- How a run ends: `_complete_run` and `_fail_run`, with `_transition_task`.
use aura_automated_user_rag.Base.{
  ℕ, String, Option, none, some, [], ◌∷◌, ◌≟◌, ◌&&◌, ◌||◌, if◌then◌else◌, Result, ok, raise, get_or,
  invalid_task_transition,
}
use aura_automated_user_rag.Domain.Events.{
  Ambient, new_event, Value, Metadata, put, lookup, text, ident,
}
use aura_automated_user_rag.Domain.Tasks.{
  Task, TaskStatus, task_status_eq, TaskExecution, TaskExecutionStatus, transition, transitions,
}
use aura_automated_user_rag.Domain.Agents.Runs.{
  AgentRun, AgentRunStatus, transition as run_transition,
}
use aura_automated_user_rag.Domain.Agents.Tools.{AgentDecision}
use aura_automated_user_rag.Store.{Database}
use aura_automated_user_rag.Store.Work.{
  Script, Uow, pure, reads, writes, commit, with_uow, ◌>>=◌, ◌>>◌,
}
use aura_automated_user_rag.Store.TaskRows.{get_task, update_task}
use aura_automated_user_rag.Store.Rows.{get_execution, update_execution, append_event}
use aura_automated_user_rag.Store.RunRows.{update_run}

-- The walk through RUNNING, where the direct transition is refused.
abbrev pub walk_through : Task → TaskStatus → Result Task → Result Task
walk_through task target (ok moved) = ok moved
walk_through task target (raise _) =
    if (task.status ≟ TaskStatus.queued)
      && ((target ≟ TaskStatus.succeeded) || (target ≟ TaskStatus.failed))
    then transitions task (TaskStatus.running ∷ target ∷ [])
    else raise invalid_task_transition

-- `_transition_task`
unfoldable pub transition_task : Task → TaskStatus → Result Task
transition_task task target =
    if task.status ≟ target then ok task else walk_through task target (transition task target)

-- `d.get(key, default)`
abbrev pub value_or : Option Value → Value → Value
value_or none default = default
value_or (some v) default = v

-- The result of a method that returns the run that it has changed.
abbrev pub replaced : AgentRun → Result (Unit {0}) → Result AgentRun
replaced run (ok _) = ok run
replaced run (raise e) = raise e

abbrev pub returning : AgentRun → Result (Unit {0}) × Database → Result AgentRun × Database
returning run outcome = (replaced run outcome.0, outcome.1)

-- `decision.arguments.get("summary", "Task completed")`
abbrev pub final_summary : AgentDecision → Value
final_summary decision = value_or (lookup "summary" decision.arguments) (text "Task completed")

module _ (g : Ambient) where
  abbrev pub write_moved : Result Task → Uow (Unit {0})
  write_moved (raise _) = pure tt
  write_moved (ok moved) = writes (update_task (record moved { updated_at = g.now 3 }))

  -- The task of the run, moved where its state machine allows it.
  abbrev pub move_task : TaskStatus → Option Task → Uow (Unit {0})
  move_task target none = pure tt
  move_task target (some task) = write_moved (transition_task task target)

  abbrev pub end_execution : (TaskExecution → TaskExecution) → Option TaskExecution → Uow (Unit {0})
  end_execution f none = pure tt
  end_execution f (some execution) = writes (update_execution (f execution))

  abbrev pub close_end :
      AgentRun → (TaskExecution → TaskExecution) → String → Metadata → Uow (Unit {0})
  close_end run f event_type metadata = do
    execution ← reads (get_execution run.task_execution_id)
    end_execution f execution
    writes (
        append_event
          (new_event g 5 event_type run.mission_id (some run.task_id) (some run.agent_id) metadata))
    commit

  abbrev pub end_with :
      AgentRun
      → TaskStatus
      → (TaskExecution → TaskExecution)
      → String
      → Metadata
      → Option Task
      → Uow (Unit {0})
  end_with run target f event_type metadata task =
      move_task target task >> close_end run f event_type metadata

  -- The unit of work that both ends share.
  abbrev pub record_end :
      AgentRun → TaskStatus → (TaskExecution → TaskExecution) → String → Metadata → Uow (Unit {0})
  record_end run target f event_type metadata = do
    update_run run
    task ← reads (get_task run.task_id)
    end_with run target f event_type metadata task

  abbrev pub finish_verified : AgentRun → Result AgentRun → AgentRun
  finish_verified run (raise _) = run
  finish_verified run (ok verifying) =
      get_or (run_transition (g.now 0) verifying AgentRunStatus.completed) verifying

  abbrev pub to_completed : AgentRun → Result AgentRun → AgentRun
  to_completed run (ok completed) = completed
  to_completed run (raise _) =
      finish_verified run (run_transition (g.now 0) run AgentRunStatus.verifying)

  -- The run that `_complete_run` writes.
  abbrev pub completed_run : AgentRun → AgentDecision → AgentRun
  completed_run run decision =
      record (to_completed run (run_transition (g.now 0) run AgentRunStatus.completed)) {
        completed_at = some (g.now 1);
        final_result = final_summary decision;
        updated_at = g.now 2;
      }

  abbrev pub succeeded_execution : ℕ → TaskExecution → TaskExecution
  succeeded_execution agent_run_id execution = record execution {
    status = TaskExecutionStatus.succeeded;
    completed_at = some (g.now 4);
    result_metadata = put "agent_run_id" (ident agent_run_id) execution.result_metadata;
  }

  -- `_complete_run`
  unfoldable pub complete_run : AgentRun → AgentDecision → Script AgentRun
  complete_run run decision d =
      let done = completed_run run decision in
      returning done (
        with_uow
          (record_end done TaskStatus.succeeded (succeeded_execution done.id) "agent.run.completed"
            (("agent_run_id", ident done.id) ∷ ("result", done.final_result) ∷ []))
          d)

  -- The run that `_fail_run` writes.
  abbrev pub failed_run : AgentRun → String → AgentRun
  failed_run run reason = record (get_or (run_transition (g.now 0) run AgentRunStatus.failed) run) {
    completed_at = some (g.now 1);
    failure_reason = some reason;
    updated_at = g.now 2;
  }

  abbrev pub failed_execution : String → TaskExecution → TaskExecution
  failed_execution reason execution = record execution {
    status = TaskExecutionStatus.failed;
    completed_at = some (g.now 4);
    error = some reason;
  }

  -- `_fail_run`
  unfoldable pub fail_run : AgentRun → String → Script AgentRun
  fail_run run reason d =
      let done = failed_run run reason in
      returning done (
        with_uow
          (record_end done TaskStatus.failed (failed_execution reason) "agent.run.failed"
            (("agent_run_id", ident done.id) ∷ ("failure_reason", text reason) ∷ []))
          d)
