-- ===== src/Attempts/Completion.antt =====
-- `_complete_task` keeps the attempts bounded.
use aura_automated_user_rag.Base.{
  ℕ, Option, none, some, List, ◌≡◌, inl, inr, refl, sym, ap, subst, Bool-cases, Result, ok, raise,
}
use aura_automated_user_rag.Domain.Events.{Ambient, shift}
use aura_automated_user_rag.Domain.Missions.{mission_status_eq}
use aura_automated_user_rag.Domain.Tasks.{
  Task, TaskStatus, task_status_eq, TaskExecution, task_execution_status_eq, transition,
}
use aura_automated_user_rag.Domain.Workers.{TaskLease}
use aura_automated_user_rag.Store.{Database}
use aura_automated_user_rag.Store.Work.{Session}
use aura_automated_user_rag.Store.TaskRows.{get_task, update_task}
use aura_automated_user_rag.Store.Rows.{get_lease, update_lease, append_event, get_execution}
use aura_automated_user_rag.Coordinator.{Coordinator}
use aura_automated_user_rag.Coordinator.Lease.{lost, owned, assert_ownership}
use aura_automated_user_rag.Coordinator.Finish.{
  change_execution, finished, close, finish, finish_if, after_ownership, complete, complete_task,
}
use aura_automated_user_rag.Attempts.Bounded.{Bounded, AllBounded}
use aura_automated_user_rag.Attempts.Sessions.{Keeps, bind-Keeps, Fits, update_task-Fits}
use aura_automated_user_rag.Attempts.Moves.{
  Moved, transition-Moved, transition-Bounded, get_task-Fits, change_execution-Keeps,
}

owned_keeps :
    (g : Ambient) (c : Coordinator) (found : Option TaskLease) (s : Session)
    → (owned g c found s).1 ≡ s
owned_keeps g c none s = refl
owned_keeps g c (some lease) s = elim (Bool-cases (lost (g.now 0) c (some lease))) [
  | inl missed ↦ rw missed refl
  | inr held ↦ rw held refl
]

pub assert_ownership_keeps :
    (g : Ambient) (c : Coordinator) (k : ℕ) (d : Database) → (assert_ownership g c k d).1 ≡ d
unfolding assert_ownership
assert_ownership_keeps g c k d = ap (λ s. s.committed) (owned_keeps g c (get_lease k d) _)

module _ (g : Ambient) (c : Coordinator) (task : Task) (execution : TaskExecution)
    (lease : TaskLease) where
  module _ (agent_run_id : ℕ) where
    close-Keeps :
        (Q : List Task → Type 0) (moved : Task)
        → ((rows : List Task) → Q rows → AllBounded rows)
        → Keeps Q (close g c task execution lease agent_run_id moved)
    unfolding update_lease append_event
    close-Keeps Q moved bounded s all q = (bounded s.pending.tasks q, q)

    finish-Keeps :
        (fresh moved : Task)
        → Bounded moved
        → Moved fresh moved
        → Keeps (Fits fresh) (finish g c task execution lease agent_run_id moved)
    finish-Keeps fresh moved good m s all fits =
        let new : Task = record moved { updated_at = g.now 0 } in
        let t : Session = record s { pending = update_task new s.pending } in
        let (c', q') = update_task-Fits fresh new m.id_is m.most_is good s all fits in
        bind-Keeps (Fits fresh)
          (change_execution g c task execution lease
            (finished g c task execution lease agent_run_id) (get_execution execution.id t.pending))
          (λ _. close g c task execution lease agent_run_id moved)
          (change_execution-Keeps g c task execution lease (Fits fresh)
            (finished g c task execution lease agent_run_id) (get_execution execution.id t.pending))
          (λ _. close-Keeps (Fits fresh) moved (λ rows q. q.0)) t c' q'

    finish_if-AllBounded :
        (fresh : Task) (r : Result Task) (d : Database)
        → transition fresh TaskStatus.succeeded ≡ r
        → Fits fresh d.tasks
        → Bounded fresh
        → AllBounded
            (finish_if g c task execution lease agent_run_id r
              (record { committed = d; pending = d })).1.committed.tasks
    finish_if-AllBounded fresh (raise e) d h fits good = fits.0
    finish_if-AllBounded fresh (ok moved) d h fits good =
        (finish-Keeps fresh moved (transition-Bounded fresh moved TaskStatus.succeeded refl h good)
          (transition-Moved fresh moved TaskStatus.succeeded h)
          (record { committed = d; pending = d }) fits.0 fits).0

    complete-AllBounded :
        (found : Option Task) (d : Database)
        → get_task task.id d ≡ found
        → AllBounded d.tasks
        → AllBounded
            (complete g c task execution lease agent_run_id found
              (record { committed = d; pending = d })).1.committed.tasks
    complete-AllBounded none d e all = all
    complete-AllBounded (some fresh) d e all =
        let (fits, bounded) = get_task-Fits task.id d fresh e all in
        finish_if-AllBounded fresh (transition fresh TaskStatus.succeeded) d refl fits bounded

    after_ownership-AllBounded :
        (r : Result TaskLease × Database)
        → AllBounded r.1.tasks
        → AllBounded (after_ownership g c task execution lease agent_run_id r).1.tasks
    after_ownership-AllBounded (raise e, d) all = all
    after_ownership-AllBounded (ok _, d) all = complete-AllBounded (get_task task.id d) d refl all

    -- `_complete_task`
    pub complete_task-AllBounded :
        (d : Database)
        → AllBounded d.tasks
        → AllBounded (complete_task g c task execution lease agent_run_id d).1.tasks
    unfolding complete_task
    complete_task-AllBounded d all =
        after_ownership-AllBounded (assert_ownership (shift 5 g) c lease.id d) (
          subst (λ x. AllBounded x.tasks) (sym (assert_ownership_keeps (shift 5 g) c lease.id d))
            all)
