-- ===== src/Runtime/Tasks.antt =====
-- What the end of a run does to the table of tasks.
use aura_automated_user_rag.Base.{
  true, false, data_error, String, Option, none, some, List, [], ◌∷◌, ◌≡◌, inl, inr, refl, sym, ap,
  Option-cases, ◌∙◌, ◌≟◌, ◌&&◌, ◌||◌, Bool-cases, Result, ok, raise, ok-injective, result-cases,
  invalid_task_transition,
}
use aura_automated_user_rag.Domain.Events.{Ambient, Metadata}
use aura_automated_user_rag.Domain.Tasks.{
  Task, TaskStatus, task_status_eq, TaskExecution, transition, transitions,
}
use aura_automated_user_rag.Domain.Agents.Runs.{AgentRun}
use aura_automated_user_rag.Store.{Database}
use aura_automated_user_rag.Store.Work.{Session, with_uow, ◌>>◌}
use aura_automated_user_rag.Store.TaskRows.{get_task, update_task}
use aura_automated_user_rag.Store.Rows.{get_execution, update_execution, append_event}
use aura_automated_user_rag.Store.RunRows.{change_run, refuses, update_run}
use aura_automated_user_rag.Attempts.Moves.{transition-is}
use aura_automated_user_rag.Runtime.Finish.{
  transition_task, walk_through, write_moved, close_end, end_with, record_end,
}

module _ (g : Ambient) (target : TaskStatus) where
  abbrev pub written : Result Task → Database → Database
  written (raise _) d = d
  written (ok moved) d = update_task (record moved { updated_at = g.now 3 }) d

  -- The tasks after the end of a run whose task was found so.
  abbrev pub moved_tasks : Option Task → Database → List Task
  moved_tasks none d = d.tasks
  moved_tasks (some task) d = (written (transition_task task target) d).tasks

  module _ (run : AgentRun) (f : TaskExecution → TaskExecution) (event_type : String)
      (metadata : Metadata) where
    -- A unit of work that is done and leaves these tasks.
    abbrev Records : Result (Unit {0}) × Session → List Task → Type 0
    Records outcome tasks = (outcome.0 ≡ ok tt) × (outcome.1.committed.tasks ≡ tasks)

    close_end-tasks :
        (s : Session) → Records (close_end g run f event_type metadata s) s.pending.tasks
    unfolding update_execution append_event
    close_end-tasks s = elim (Option-cases (get_execution run.task_execution_id s.pending)) [
      | inl gone ↦ rw gone (refl, refl)
      | inr (execution, found) ↦ rw found (refl, refl)
    ]

    write_moved-tasks :
        (r : Result Task) (s : Session)
        → Records
            ((write_moved g r >> close_end g run f event_type metadata) s)
            (written r s.pending).tasks
    write_moved-tasks (raise e) s = close_end-tasks s
    write_moved-tasks (ok moved) s =
        close_end-tasks
          (record s { pending = update_task (record moved { updated_at = g.now 3 }) s.pending })

    end_with-tasks :
        (found : Option Task) (s : Session)
        → Records
            (end_with g run target f event_type metadata found s)
            (moved_tasks found s.pending)
    end_with-tasks none s = close_end-tasks s
    end_with-tasks (some task) s = write_moved-tasks (transition_task task target) s

    -- The unit of work at the end of a run changes the row of its task, or none, where the table
    -- takes the run.
    pub record_end-tasks :
        (d : Database)
        → refuses run d ≡ false
        → ((with_uow (record_end g run target f event_type metadata) d).0 ≡ ok tt)
          × ((with_uow (record_end g run target f event_type metadata) d).1.tasks
              ≡ moved_tasks (get_task run.task_id d) (change_run run d))
    unfolding get_task update_run change_run
    record_end-tasks d taken =
        let done =
          end_with-tasks (get_task run.task_id d)
            (record { committed = d; pending = change_run run d }) in
        (rw taken done.0, rw (with_uow, taken) done.1)

    -- Where the table does not take it, nothing is stored.
    pub record_end-refused :
        (d : Database)
        → refuses run d ≡ true
        → with_uow (record_end g run target f event_type metadata) d ≡ (raise data_error, d)
    unfolding update_run
    record_end-refused d not_taken = rw not_taken refl

transitions-is :
    (task moved : Task) (via target : TaskStatus)
    → transitions task (via ∷ target ∷ []) ≡ ok moved
    → moved ≡ record task { status = target }
unfolding transitions
transitions-is task moved via target h = elim (result-cases (transition task via)) [
  | inr (e, first) ↦ let bad : raise e ≡ ok moved = rw first at h in absurd (cc)
  | inl (between, first) ↦ elim (result-cases (transition between target)) [
    | inr (e, second) ↦ let bad : raise e ≡ ok moved = rw (first, second) at h in absurd (cc)
    | inl (last, second) ↦
        let same : last ≡ moved = ok-injective (rw (first, second) at h) in
        sym same
        ∙ transition-is between last target second
        ∙ ap (λ (t : Task). record t { status = target }) (transition-is task between via first)
  ]
]

walk_through-is :
    (task moved : Task) (target : TaskStatus) (r : Result Task)
    → transition task target ≡ r
    → walk_through task target r ≡ ok moved
    → moved ≡ record task { status = target }
walk_through-is task moved target (ok direct) h walked =
    sym (ok-injective walked) ∙ transition-is task direct target h
walk_through-is task moved target (raise e) h walked =
    elim (Bool-cases (
      (task.status ≟ TaskStatus.queued)
      && ((target ≟ TaskStatus.succeeded) || (target ≟ TaskStatus.failed)))) [
        | inl queued ↦ transitions-is task moved TaskStatus.running target (rw queued at walked)
        | inr not_queued ↦
            let bad : raise invalid_task_transition ≡ ok moved = rw not_queued at walked in
            absurd (cc)
      ]

-- A task that `_transition_task` moves has the new status, and is otherwise as it was.
pub transition_task-is :
    (task moved : Task) (target : TaskStatus)
    → transition_task task target ≡ ok moved
    → moved ≡ record task { status = target }
unfolding transition_task
transition_task-is task moved target h = elim (Bool-cases (task.status ≟ target)) [
  | inl same ↦
      let e : task.status ≡ target = (task_status_eq.beq_iff task.status target).0 same in
      sym (ok-injective (rw same at h)) ∙ ap (λ (s : TaskStatus). record task { status = s }) e
  | inr other ↦ walk_through-is task moved target (transition task target) refl (rw other at h)
]
