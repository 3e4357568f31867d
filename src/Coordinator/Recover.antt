-- ===== src/Coordinator/Recover.antt =====
-- `recover_stale`.
use aura_automated_user_rag.Base.{
  ℕ, ◌+◌, Option, none, some, List, [], ◌∷◌, ◌≟◌, elem, leb, ltb, if◌then◌else◌, Result, ok, raise,
}
use aura_automated_user_rag.Domain.Events.{Ambient, shift, new_event, ident}
use aura_automated_user_rag.Domain.Tasks.{
  Task, TaskStatus, task_status_eq, TaskExecution, TaskExecutionStatus, task_execution_status_eq,
  transitions,
}
use aura_automated_user_rag.Domain.Workers.{TaskLease}
use aura_automated_user_rag.Store.{Database}
use aura_automated_user_rag.Store.Work.{Uow, pure, reads, writes, commit, with_uow, ◌>>=◌, ◌>>◌}
use aura_automated_user_rag.Store.TaskRows.{get_task, update_task}
use aura_automated_user_rag.Store.Rows.{
  get_execution, update_execution, get_lease, stale_leases, append_event,
}
use aura_automated_user_rag.Coordinator.{Coordinator}

module _ (g : Ambient) (c : Coordinator) where
  abbrev pub abandoned : TaskExecution → TaskExecution
  abandoned execution = record execution {
    status = TaskExecutionStatus.failed;
    error = some "Worker lease expired; task recovered";
    completed_at = some (g.now 1);
  }

  abbrev pub abandon : Option TaskExecution → Uow (Unit {0})
  abandon none = pure tt
  abandon (some execution) =
      if execution.status ≟ TaskExecutionStatus.succeeded
      then pure tt
      else writes (update_execution (abandoned execution))

  -- The writes after the transitions; 1 where the task was recovered.
  abbrev pub requeue : TaskLease → Result Task → Uow ℕ
  requeue fresh (raise _) = pure 0
  requeue fresh (ok task) = do
    writes (update_task (record task { updated_at = g.now 2 }))
    writes (
        append_event (
          new_event g 3 "task.recovered" task.mission_id (some task.id) (some c.agent_id) (
            ("previous_execution_id", ident fresh.task_execution_id)
            ∷ ("previous_worker_id", ident fresh.worker_id)
            ∷ [])))
    commit
    pure 1

  -- FAILED, RETRYING and QUEUED in turn, if the task has an attempt left.
  abbrev pub to_queued : Task → Result Task
  to_queued task =
      transitions task (TaskStatus.failed ∷ TaskStatus.retrying ∷ TaskStatus.queued ∷ [])

  abbrev pub requeue_if : TaskLease → Task → Uow ℕ
  requeue_if fresh task =
      if leb task.max_attempts task.attempt_count then pure 0 else requeue fresh (to_queued task)

  abbrev pub recover_running : TaskLease → Task → Uow ℕ
  recover_running fresh task = do
    execution ← reads (get_execution fresh.task_execution_id)
    abandon execution
    requeue_if fresh task

  abbrev pub recover_task : TaskLease → Option Task → Uow ℕ
  recover_task fresh none = pure 0
  recover_task fresh (some task) =
      if elem task.status (TaskStatus.running ∷ TaskStatus.queued ∷ [])
      then recover_running fresh task
      else pure 0

  abbrev pub recover_lease : Option TaskLease → Uow ℕ
  recover_lease none = pure 0
  recover_lease (some fresh) =
      if ltb (g.now 0) fresh.lease_expires_at
      then pure 0
      else reads (get_task fresh.task_id) >>= recover_task fresh

-- The loop over the leases that had expired.
unfoldable pub recover_leases : Ambient → Coordinator → List TaskLease → Uow ℕ
recover_leases g c [] = pure 0
recover_leases g c (lease ∷ rest) = do
  fresh ← reads (get_lease lease.id)
  recovered ← recover_lease g c fresh
  more ← recover_leases (shift 4 g) c rest
  pure (recovered + more)

-- `recover_stale`
unfoldable pub recover_stale : Ambient → Coordinator → Database → Result ℕ × Database
recover_stale g c = with_uow (reads (stale_leases (g.now 0)) >>= recover_leases (shift 1 g) c)
