-- ===== src/Scheduler/Effects.antt =====
-- What the branches of the scheduler do to the session.
use aura_automated_user_rag.Base.{
  ℕ, some, List, [], ◌∷◌, ◌≡◌, inl, inr, refl, ◌≟◌, select, modify, select-modify, Option-cases,
  Bool-cases, ◌∙◌, Result, ok, ==_refl,
}
use aura_automated_user_rag.Domain.Events.{Ambient}
use aura_automated_user_rag.Domain.Tasks.{Task, TaskStatus, task_status_eq}
use aura_automated_user_rag.Store.Work.{Session}
use aura_automated_user_rag.Store.TaskRows.{task_key, try_transition_status, move_row}
use aura_automated_user_rag.Scheduler.{
  block_task, queue_task, after_block, after_ready, after_queue,
}

module _ (g : Ambient) (mission_id : ℕ) (task : Task) (s : Session) where
  -- Nothing, or the row of the task is moved to READY and on to QUEUED.
  pub data Queued (r : Result (List Task) × Session) : Type 0 where
    lost : r ≡ (ok [], s) → Queued r
    moved :
        r.0 ≡ ok (task ∷ [])
        → r.1.pending.tasks
          ≡ modify task_key task.id
              (move_row (g.now 2) TaskStatus.queued)
              (modify task_key task.id (move_row (g.now 0) TaskStatus.ready) s.pending.tasks)
        → Queued r

  -- Nothing, or the row of the task is moved to BLOCKED and all is committed.
  pub data Blocked (r : Result (List Task) × Session) : Type 0 where
    kept : r ≡ (ok [], s) → Blocked r
    moved :
        r.0 ≡ ok []
        → r.1.committed ≡ r.1.pending
        → r.1.pending.tasks
          ≡ modify task_key task.id (move_row (g.now 0) TaskStatus.blocked) s.pending.tasks
        → Blocked r

  pub block_task_lem : Blocked (block_task g mission_id task s)
  unfolding block_task
  block_task_lem = elim (Bool-cases (task.status ≟ TaskStatus.blocked)) [
    | inl before ↦ kept (rw before)
    | inr other ↦ elim (Option-cases (select task_key task.id s.pending.tasks)) [
      | inl gone ↦ kept (rw (other, gone, block_task, after_block, try_transition_status))
      | inr (row, found) ↦ elim (Bool-cases (row.status ≟ task.status)) [
        | inl same ↦
            Blocked.moved (rw (other, found, block_task, after_block, try_transition_status, same))
              (rw (other, found, block_task, after_block, try_transition_status, same))
              (rw (other, found, block_task, after_block, try_transition_status, same))
        | inr raced ↦
            kept (rw (other, found, block_task, after_block, try_transition_status, raced))
      ]
    ]
  ]

  again :
      (row : Task)
      → select task_key task.id s.pending.tasks ≡ some row
      → select task_key task.id
          (modify task_key task.id (move_row (g.now 0) TaskStatus.ready) s.pending.tasks)
        ≡ some (move_row (g.now 0) TaskStatus.ready row)
  again row found =
      select-modify task_key (move_row (g.now 0) TaskStatus.ready) (λ a. refl) task.id task.id
        s.pending.tasks
      ∙ rw (==_refl task.id, found)

  pub queue_task_lem : Queued (queue_task g mission_id task s)
  unfolding queue_task
  queue_task_lem = elim (Option-cases (select task_key task.id s.pending.tasks)) [
    | inl gone ↦ lost (rw (gone, queue_task, after_ready, after_queue, try_transition_status))
    | inr (row, found) ↦ elim (Bool-cases (row.status ≟ task.status)) [
      | inl same ↦
          Queued.moved
            (rw (
              found,
              queue_task,
              after_ready,
              after_queue,
              try_transition_status,
              same,
              again row found,
            ))
            (rw (
              found,
              queue_task,
              after_ready,
              after_queue,
              try_transition_status,
              same,
              again row found,
            ))
      | inr raced ↦
          lost (rw (found, queue_task, after_ready, after_queue, try_transition_status, raced))
    ]
  ]
