-- ===== src/Coordinator/Finish.antt =====
-- `_complete_task` and `_fail_task`.
use aura_automated_user_rag.Base.{
  ℕ, Bool, Option, none, some, String, [], ◌∷◌, ◌==◌, ◌&&◌, ltb, if◌then◌else◌, Result, ok, raise,
  runtime_error,
}
use aura_automated_user_rag.Domain.Events.{Ambient, shift, new_event, put, ident, text, count}
use aura_automated_user_rag.Domain.Tasks.{
  Task, TaskStatus, TaskExecution, TaskExecutionStatus, transition, transitions,
}
use aura_automated_user_rag.Domain.Workers.{TaskLease}
use aura_automated_user_rag.Store.{Database}
use aura_automated_user_rag.Store.Work.{
  Uow, pure, throw, reads, writes, commit, with_uow, ◌>>=◌, ◌>>◌,
}
use aura_automated_user_rag.Store.TaskRows.{get_task, update_task}
use aura_automated_user_rag.Store.Rows.{
  get_execution, update_execution, update_lease, get_lease, append_event,
}
use aura_automated_user_rag.Coordinator.{Coordinator}
use aura_automated_user_rag.Coordinator.Lease.{assert_ownership}

module _ (g : Ambient) (c : Coordinator) (task : Task) (execution : TaskExecution)
    (lease : TaskLease) where
  -- The row of the execution, where there is one.
  abbrev pub change_execution :
      (TaskExecution → TaskExecution) → Option TaskExecution → Uow (Unit {0})
  change_execution f none = pure tt
  change_execution f (some found) = writes (update_execution (f found))

  module _ (agent_run_id : ℕ) where
    abbrev pub finished : TaskExecution → TaskExecution
    finished found = record found {
      status = TaskExecutionStatus.succeeded;
      completed_at = some (g.now 1);
      result_metadata = put "agent_run_id" (ident agent_run_id) found.result_metadata;
    }

    -- The lease that was claimed is written back as expired, and the completion is reported.
    abbrev pub close : Task → Uow (Unit {0})
    close moved = do
      writes (update_lease (record lease { lease_expires_at = g.now 2; updated_at = g.now 3 }))
      writes (
          append_event (
            new_event g 4 "task.completed" moved.mission_id (some moved.id) (some c.agent_id) (
              ("task_execution_id", ident execution.id)
              ∷ ("agent_run_id", ident agent_run_id)
              ∷ [])))
      commit

    abbrev pub finish_execution : Task → Option TaskExecution → Uow (Unit {0})
    finish_execution moved found = change_execution finished found >> close moved

    abbrev pub finish : Task → Uow (Unit {0})
    finish moved = do
      writes (update_task (record moved { updated_at = g.now 0 }))
      found ← reads (get_execution execution.id)
      finish_execution moved found

    abbrev pub finish_if : Result Task → Uow (Unit {0})
    finish_if (raise _) = throw (runtime_error "Cannot complete task")
    finish_if (ok moved) = finish moved

    abbrev pub complete : Option Task → Uow (Unit {0})
    complete none = throw (runtime_error "Task disappeared")
    complete (some fresh_task) = finish_if (transition fresh_task TaskStatus.succeeded)

    abbrev pub after_ownership : Result TaskLease × Database → Result (Unit {0}) × Database
    after_ownership (raise e, d) = (raise e, d)
    after_ownership (ok _, d) = with_uow (reads (get_task task.id) >>= complete) d

    -- `_complete_task`
    unfoldable pub complete_task : Database → Result (Unit {0}) × Database
    complete_task d = after_ownership (assert_ownership (shift 5 g) c lease.id d)

  module _ (reason : String) (retryable : Bool) where
    -- The task after the first transition, written where it is allowed.
    abbrev pub to_failed : Task → Result Task → Uow Task
    to_failed fresh_task (raise _) = pure fresh_task
    to_failed fresh_task (ok moved) = do
      writes (update_task (record moved { updated_at = g.now 0 }))
      pure (record moved { updated_at = g.now 0 })

    abbrev pub errored : TaskExecution → TaskExecution
    errored found = record found {
      status = TaskExecutionStatus.failed;
      completed_at = some (g.now 1);
      error = some reason;
    }

    abbrev pub report_failure : Task → Uow (Unit {0})
    report_failure fresh_task = writes (
        append_event (
          new_event g 4 "task.failed" fresh_task.mission_id (some fresh_task.id) (some c.agent_id)
            (("reason", text reason) ∷ [])))

    abbrev pub requeue : Task → Uow (Unit {0})
    requeue moved = do
      writes (update_task (record moved { updated_at = g.now 2 }))
      writes (
          append_event (
            new_event g 3 "task.requeued" moved.mission_id (some moved.id) (some c.agent_id)
              (("reason", text reason) ∷ ("attempt", count moved.attempt_count) ∷ [])))

    -- FAILED → RETRYING → QUEUED. A refused transition changes nothing that the event reads.
    abbrev pub retry : Task → Result Task → Uow (Unit {0})
    retry fresh_task (raise _) = report_failure fresh_task
    retry fresh_task (ok queued) = requeue queued

    abbrev pub to_queued : Task → Result Task
    to_queued task = transitions task (TaskStatus.retrying ∷ TaskStatus.queued ∷ [])

    abbrev pub retry_or_report : Task → Uow (Unit {0})
    retry_or_report fresh_task =
        if retryable && ltb fresh_task.attempt_count fresh_task.max_attempts
        then retry fresh_task (to_queued fresh_task)
        else report_failure fresh_task

    abbrev pub release_own : Option TaskLease → Uow (Unit {0})
    release_own none = pure tt
    release_own (some fresh_lease) =
        if fresh_lease.worker_id == c.worker.id
        then writes
            (update_lease (record fresh_lease { lease_expires_at = g.now 5; updated_at = g.now 6 }))
        else pure tt

    abbrev pub release_and_commit : Option TaskLease → Uow (Unit {0})
    release_and_commit found = release_own found >> commit

    abbrev pub release_lease : Uow (Unit {0})
    release_lease = reads (get_lease lease.id) >>= release_and_commit

    abbrev pub settle : Option TaskExecution → Task → Uow (Unit {0})
    settle fresh_exec moved =
        change_execution errored fresh_exec >> (retry_or_report moved >> release_lease)

    abbrev pub fail : Option TaskExecution → Option Task → Uow (Unit {0})
    fail fresh_exec none = pure tt
    fail fresh_exec (some fresh_task) =
        to_failed fresh_task (transition fresh_task TaskStatus.failed) >>= settle fresh_exec

    -- `_fail_task`
    unfoldable pub fail_task : Database → Result (Unit {0}) × Database
    fail_task = with_uow (do
      fresh_task ← reads (get_task task.id)
      fresh_exec ← reads (get_execution execution.id)
      fail fresh_exec fresh_task)
