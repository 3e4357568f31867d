-- ===== src/Attempts/Recovery.antt =====
-- `recover_stale` keeps the attempts bounded.
use aura_automated_user_rag.Base.{
  ◌<◌, Option, none, some, List, [], ◌∷◌, ◌≡◌, inl, inr, refl, sym, ap, arith, ◌≟◌, ltb, leb,
  leb-false→lt, ◌+◌, elem, Bool-cases, Result, ok, raise, ok-injective,
}
use aura_automated_user_rag.Domain.Events.{Ambient, shift}
use aura_automated_user_rag.Domain.Missions.{mission_status_eq}
use aura_automated_user_rag.Domain.Tasks.{
  Task, TaskStatus, task_status_eq, TaskExecution, TaskExecutionStatus, task_execution_status_eq,
  valid_transitions, transition, transitions,
}
use aura_automated_user_rag.Domain.Workers.{TaskLease}
use aura_automated_user_rag.Store.{Database}
use aura_automated_user_rag.Store.Work.{Session, pure, ◌>>=◌}
use aura_automated_user_rag.Store.TaskRows.{get_task}
use aura_automated_user_rag.Store.Rows.{
  get_lease, stale_leases, append_event, get_execution, update_execution,
}
use aura_automated_user_rag.Coordinator.{Coordinator}
use aura_automated_user_rag.Attempts.Bounded.{Bounded, AllBounded}
use aura_automated_user_rag.Attempts.Sessions.{
  Keeps, pure-Keeps, bind-Keeps, Fits, update_task-Fits,
}
use aura_automated_user_rag.Attempts.Moves.{get_task-Fits}
use aura_automated_user_rag.Coordinator.Recover.{
  abandon, requeue as requeue_lease, to_queued as to_queued_again, requeue_if, recover_task,
  recover_lease, recover_leases, recover_stale,
}

again-is :
    (task queued : Task)
    → transitions task (TaskStatus.failed ∷ TaskStatus.retrying ∷ TaskStatus.queued ∷ [])
      ≡ ok queued
    → queued ≡ record task { status = TaskStatus.queued }
unfolding transitions transition
again-is task queued h =
    elim (Bool-cases (elem TaskStatus.failed (valid_transitions task.status))) [
      | inl allowed ↦ ok-injective (sym (rw allowed at h))
      | inr refused ↦ absurd (ground arith)
    ]

module _ (g : Ambient) (c : Coordinator) where
  abandon-Keeps :
      (Q : List Task → Type 0) (found : Option TaskExecution) → Keeps Q (abandon g c found)
  unfolding update_execution
  abandon-Keeps Q none s all q = (all, q)
  abandon-Keeps Q (some execution) s all q =
      elim (Bool-cases (execution.status ≟ TaskExecutionStatus.succeeded)) [
        | inl done ↦ rw done (all, q)
        | inr open_still ↦ rw open_still (all, q)
      ]

  requeue-Keeps :
      (fresh : TaskLease) (task : Task) (r : Result Task)
      → to_queued_again g c task ≡ r
      → Bounded task
      → task.attempt_count < task.max_attempts
      → Keeps (Fits task) (requeue_lease g c fresh r)
  unfolding append_event
  requeue-Keeps fresh task (raise e) h good fewer s all fits = (all, fits)
  requeue-Keeps fresh task (ok queued) h good fewer s all fits =
      let e : queued ≡ record task { status = TaskStatus.queued } = again-is task queued h in
      let (c', q') =
        update_task-Fits task (record queued { updated_at = g.now 2 }) (ap (λ t. t.id) e)
          (ap (λ t. t.max_attempts) e) (rw e (good.0, λ _. fewer)) s all fits in
      (q'.0, q')

  requeue_if-Keeps :
      (fresh : TaskLease) (task : Task)
      → Bounded task
      → Keeps (Fits task) (requeue_if g c fresh task)
  requeue_if-Keeps fresh task good = elim (Bool-cases (leb task.max_attempts task.attempt_count)) [
    | inl spent ↦ λ s all fits. rw spent (all, fits)
    | inr left ↦ rw left (
        requeue-Keeps fresh task (to_queued_again g c task) refl good
          (leb-false→lt task.max_attempts task.attempt_count left))
  ]

  recover_task-Keeps :
      (fresh : TaskLease) (found : Option Task) (s : Session)
      → get_task fresh.task_id s.pending ≡ found
      → AllBounded s.committed.tasks
      → AllBounded s.pending.tasks
      → AllBounded (recover_task g c fresh found s).1.committed.tasks
        × AllBounded (recover_task g c fresh found s).1.pending.tasks
  recover_task-Keeps fresh none s e all q = (all, q)
  recover_task-Keeps fresh (some task) s e all q =
      elim (Bool-cases (elem task.status (TaskStatus.running ∷ TaskStatus.queued ∷ []))) [
        | inr other ↦ rw other (all, q)
        | inl held ↦
            let (fits, good) = get_task-Fits fresh.task_id s.pending task e q in
            let (c', q') =
              bind-Keeps (Fits task) (abandon g c (get_execution fresh.task_execution_id s.pending))
                (λ _. requeue_if g c fresh task)
                (abandon-Keeps (Fits task) (get_execution fresh.task_execution_id s.pending))
                (λ _. requeue_if-Keeps fresh task good) s all fits in
            rw held (c', q'.0)
      ]

  recover_lease-Keeps : (found : Option TaskLease) → Keeps AllBounded (recover_lease g c found)
  recover_lease-Keeps none s all q = (all, q)
  recover_lease-Keeps (some fresh) s all q =
      elim (Bool-cases (ltb (g.now 0) fresh.lease_expires_at)) [
        | inl renewed ↦ rw renewed (all, q)
        | inr stale ↦
            rw stale (recover_task-Keeps fresh (get_task fresh.task_id s.pending) s refl all q)
      ]

recover_leases-Keeps :
    (g : Ambient) (c : Coordinator) (leases : List TaskLease)
    → Keeps AllBounded (recover_leases g c leases)
unfolding recover_leases
recover_leases-Keeps g c [] s all q = (all, q)
recover_leases-Keeps g c (lease ∷ rest) s all q =
    bind-Keeps AllBounded (recover_lease g c (get_lease lease.id s.pending))
      (λ recovered. recover_leases (shift 4 g) c rest >>= λ more. pure (recovered + more))
      (recover_lease-Keeps g c (get_lease lease.id s.pending))
      (λ recovered.
        bind-Keeps AllBounded (recover_leases (shift 4 g) c rest) (λ more. pure (recovered + more))
          (recover_leases-Keeps (shift 4 g) c rest)
          (λ more. pure-Keeps AllBounded (recovered + more)))
      s all q

-- `recover_stale`
pub recover_stale-AllBounded :
    (g : Ambient) (c : Coordinator) (d : Database)
    → AllBounded d.tasks
    → AllBounded (recover_stale g c d).1.tasks
unfolding recover_stale
recover_stale-AllBounded g c d all =
    (recover_leases-Keeps (shift 1 g) c (stale_leases (g.now 0) d)
      (record { committed = d; pending = d }) all all).0
