-- ===== src/Attempts/Failure.antt =====
-- `_fail_task` keeps the attempts bounded.
use aura_automated_user_rag.Base.{
  ◌<◌, Bool, Option, none, some, String, List, ◌≡◌, inl, inr, refl, sym, ap, ◌∙◌, subst, arith,
  ◌&&◌, ◌==◌, ltb, Bool-cases, Result, ok, raise,
}
use aura_automated_user_rag.Domain.Events.{Ambient}
use aura_automated_user_rag.Domain.Missions.{mission_status_eq}
use aura_automated_user_rag.Domain.Tasks.{
  Task, TaskStatus, task_status_eq, TaskExecution, task_execution_status_eq, transition,
}
use aura_automated_user_rag.Domain.Workers.{TaskLease}
use aura_automated_user_rag.Store.{Database}
use aura_automated_user_rag.Store.Work.{Session, and_then, ◌>>◌}
use aura_automated_user_rag.Store.TaskRows.{get_task}
use aura_automated_user_rag.Store.Rows.{get_lease, update_lease, append_event, get_execution}
use aura_automated_user_rag.Coordinator.{Coordinator}
use aura_automated_user_rag.Coordinator.Finish.{
  change_execution, errored, settle, release_lease, release_and_commit, report_failure,
  retry_or_report, to_failed, retry, to_queued, fail, fail_task,
}
use aura_automated_user_rag.Attempts.Bounded.{Bounded, AllBounded}
use aura_automated_user_rag.Attempts.Sessions.{Keeps, bind-Keeps, Fits, update_task-Fits}
use aura_automated_user_rag.Attempts.Moves.{
  Moved, transition-Moved, transition-Bounded, get_task-Fits, requeued-is, change_execution-Keeps,
}

module _ (g : Ambient) (c : Coordinator) (task : Task) (execution : TaskExecution)
    (lease : TaskLease) where
  module _ (reason : String) (retryable : Bool) where
    to_failed-Keeps :
        (fresh : Task) (r : Result Task) (s : Session)
        → transition fresh TaskStatus.failed ≡ r
        → Bounded fresh
        → AllBounded s.committed.tasks
        → Fits fresh s.pending.tasks
        → (after : Task) × ((to_failed g c task execution lease reason retryable fresh r s).0
            ≡ ok after)
          × Bounded after
          × Moved fresh after
          × AllBounded
              (to_failed g c task execution lease reason retryable fresh r s).1.committed.tasks
          × Fits fresh
              (to_failed g c task execution lease reason retryable fresh r s).1.pending.tasks
    to_failed-Keeps fresh (raise e) s h good all fits =
        (fresh, refl, good, record { id_is = refl; most_is = refl; count_is = refl }, all, fits)
    to_failed-Keeps fresh (ok moved) s h good all fits =
        let m = transition-Moved fresh moved TaskStatus.failed h in
        let bounded = transition-Bounded fresh moved TaskStatus.failed refl h good in
        let new : Task = record moved { updated_at = g.now 0 } in
        let (c', q') = update_task-Fits fresh new m.id_is m.most_is bounded s all fits in
        (
          new,
          refl,
          bounded,
          record { id_is = m.id_is; most_is = m.most_is; count_is = m.count_is },
          c',
          q',
        )

    report_failure-Keeps :
        (Q : List Task → Type 0) (fresh : Task)
        → Keeps Q (report_failure g c task execution lease reason retryable fresh)
    unfolding append_event
    report_failure-Keeps Q fresh s all q = (all, q)

    retry-Keeps :
        (fresh after : Task) (r : Result Task)
        → to_queued g c task execution lease reason retryable after ≡ r
        → Bounded after
        → Moved fresh after
        → after.attempt_count < after.max_attempts
        → Keeps (Fits fresh) (retry g c task execution lease reason retryable after r)
    unfolding append_event
    retry-Keeps fresh after (raise e) h good m fewer = report_failure-Keeps (Fits fresh) after
    retry-Keeps fresh after (ok queued) h good m fewer =
        let e : queued ≡ record after { status = TaskStatus.queued } = requeued-is after queued h in
        update_task-Fits fresh (record queued { updated_at = g.now 2 }) (ap (λ t. t.id) e ∙ m.id_is)
          (ap (λ t. t.max_attempts) e ∙ m.most_is) (rw e (good.0, λ _. fewer))

    retry_or_report-Keeps :
        (fresh after : Task)
        → Bounded after
        → Moved fresh after
        → Keeps (Fits fresh) (retry_or_report g c task execution lease reason retryable after)
    retry_or_report-Keeps fresh after good m =
        elim (Bool-cases (retryable && ltb after.attempt_count after.max_attempts)) [
          | inl again ↦ rw again (
              retry-Keeps fresh after (to_queued g c task execution lease reason retryable after)
                refl good m (ground arith))
          | inr last ↦ rw last (report_failure-Keeps (Fits fresh) after)
        ]

    release_and_commit-Keeps :
        (fresh : Task) (found : Option TaskLease)
        → Keeps (Fits fresh) (release_and_commit g c task execution lease reason retryable found)
    unfolding update_lease
    release_and_commit-Keeps fresh none s all fits = (fits.0, fits)
    release_and_commit-Keeps fresh (some own) s all fits =
        elim (Bool-cases (own.worker_id == c.worker.id)) [
          | inl mine ↦ rw mine (fits.0, fits)
          | inr theirs ↦ rw theirs (fits.0, fits)
        ]

    release_lease-Keeps :
        (fresh : Task)
        → Keeps (Fits fresh) (release_lease g c task execution lease reason retryable)
    release_lease-Keeps fresh s = release_and_commit-Keeps fresh (get_lease lease.id s.pending) s

    settle-Keeps :
        (fresh after : Task) (fresh_exec : Option TaskExecution)
        → Bounded after
        → Moved fresh after
        → Keeps (Fits fresh) (settle g c task execution lease reason retryable fresh_exec after)
    settle-Keeps fresh after fresh_exec good m =
        bind-Keeps (Fits fresh)
          (change_execution g c task execution lease
            (errored g c task execution lease reason retryable) fresh_exec)
          (λ _.
            retry_or_report g c task execution lease reason retryable after
            >> release_lease g c task execution lease reason retryable)
          (change_execution-Keeps g c task execution lease (Fits fresh)
            (errored g c task execution lease reason retryable) fresh_exec)
          λ _.
            bind-Keeps (Fits fresh)
              (retry_or_report g c task execution lease reason retryable after)
              (λ _. release_lease g c task execution lease reason retryable)
              (retry_or_report-Keeps fresh after good m) (λ _. release_lease-Keeps fresh)

    fail-AllBounded :
        (fresh_exec : Option TaskExecution) (found : Option Task) (d : Database)
        → get_task task.id d ≡ found
        → AllBounded d.tasks
        → AllBounded
            (fail g c task execution lease reason retryable fresh_exec found
              (record { committed = d; pending = d })).1.committed.tasks
    fail-AllBounded fresh_exec none d e all = all
    fail-AllBounded fresh_exec (some fresh) d e all =
        let (fits, good) = get_task-Fits task.id d fresh e all in
        let s : Session = record { committed = d; pending = d } in
        let r = transition fresh TaskStatus.failed in
        let (after, returned, bounded, m, c', q') = to_failed-Keeps fresh r s refl good all fits in
        subst
          (λ x.
            AllBounded
              (and_then x (settle g c task execution lease reason retryable fresh_exec)
                (to_failed g c task execution lease reason retryable fresh r
                  s).1).1.committed.tasks)
          (sym returned)
          (settle-Keeps fresh after fresh_exec bounded m
            (to_failed g c task execution lease reason retryable fresh r s).1 c' q').0

    -- `_fail_task`
    pub fail_task-AllBounded :
        (d : Database)
        → AllBounded d.tasks
        → AllBounded (fail_task g c task execution lease reason retryable d).1.tasks
    unfolding fail_task
    fail_task-AllBounded d all =
        fail-AllBounded (get_execution execution.id d) (get_task task.id d) d refl all
