-- ===== src/Coordinator/Claim/Effects.antt =====
-- What the branches of `claim_next_task` do to the session.
use aura_automated_user_rag.Base.{
  ℕ, true, Option, none, some, List, [], ◌∷◌, ◌++◌, ◌≡◌, inl, inr, refl, arith, ◌≟◌, ◌&&◌, not, In,
  here, there, select, modify, Option-cases, Bool-cases, Result, result-cases, ok,
}
use aura_automated_user_rag.Domain.Events.{Ambient, shift}
use aura_automated_user_rag.Domain.Tasks.{Task, TaskDependency, TaskStatus, task_status_eq}
use aura_automated_user_rag.Domain.Workers.{WorkerStatus, transition}
use aura_automated_user_rag.Store.Work.{Session, Uow, updates, ◌>>=◌}
use aura_automated_user_rag.Store.TaskRows.{task_key, claim_row, claim_task}
use aura_automated_user_rag.Store.Rows.{add_execution, create_lease, append_event, update_worker}
use aura_automated_user_rag.Coordinator.{Coordinator}
use aura_automated_user_rag.Coordinator.Claim.{
  Claimed, eligible, new_execution, new_lease, record_claim, claim_or, claim_first,
}

-- What `claim_or` leaves behind a row that it won: `now` is the time of the claim.
pub record Won (g : Ambient) (c : Coordinator) (s : Session) (k : ℕ) (row : Task) (cl : Claimed)
    (t : Session) : Type 0 where
  pub task_is : cl.task ≡ claim_row (g.now 0) c.worker.id row
  pub execution_is : cl.execution ≡ new_execution g c cl.task
  pub lease_is : cl.lease ≡ new_lease g c cl.task
  pub durable : t.committed ≡ t.pending
  pub tasks_are :
      t.pending.tasks ≡ modify task_key k (claim_row (g.now 0) c.worker.id) s.pending.tasks
  pub executions_are : t.pending.task_executions ≡ s.pending.task_executions ++ cl.execution ∷ []
  pub leases_are : t.pending.task_leases ≡ s.pending.task_leases ++ cl.lease ∷ []

module _ (g : Ambient) (c : Coordinator) where
  pub record_claim_lem :
      (task : Task) (s : Session)
      → (cl : Claimed) × ((record_claim g c task s).0 ≡ ok (some cl))
        × (cl.task ≡ task)
        × (cl.execution ≡ new_execution g c task)
        × (cl.lease ≡ new_lease g c task)
        × ((record_claim g c task s).1.committed ≡ (record_claim g c task s).1.pending)
        × ((record_claim g c task s).1.pending.tasks ≡ s.pending.tasks)
        × ((record_claim g c task s).1.pending.task_executions
            ≡ s.pending.task_executions ++ new_execution g c task ∷ [])
        × ((record_claim g c task s).1.pending.task_leases
            ≡ s.pending.task_leases ++ new_lease g c task ∷ [])
  unfolding record_claim add_execution create_lease append_event update_worker
  record_claim_lem task s = elim (result-cases (transition (g.now 5) c.worker WorkerStatus.busy)) [
    | inl (busy, e) ↦ (
      record {
        task = task;
        execution = new_execution g c task;
        lease = new_lease g c task;
        worker = busy;
      },
      rw e,
      refl,
      refl,
      refl,
      rw e,
      rw e,
      rw e,
      rw e,
    )
    | inr (x, e) ↦ (
      record {
        task = task;
        execution = new_execution g c task;
        lease = new_lease g c task;
        worker = c.worker;
      },
      rw e,
      refl,
      refl,
      refl,
      rw e,
      rw e,
      rw e,
      rw e,
    )
  ]

-- What the loop over the tasks of the list `visited` does: nothing, or a claim.
pub data Claims (c : Coordinator) (tasks : List Task) (deps : List TaskDependency)
    (visited : List Task) (s : Session) (r : Result (Option Claimed) × Session) : Type 0 where
  nothing : r ≡ (ok none, s) → Claims c tasks deps visited s r
  won :
      (g : Ambient) (candidate row : Task) (cl : Claimed)
      → In candidate visited
      → eligible c tasks deps candidate ≡ true
      → select task_key candidate.id s.pending.tasks ≡ some row
      → row.status ≡ TaskStatus.queued
      → r.0 ≡ ok (some cl)
      → Won g c s candidate.id row cl r.1
      → Claims c tasks deps visited s r

module _ (c : Coordinator) (tasks : List Task) (deps : List TaskDependency) where
  Claims-later :
      {task : Task} {visited : List Task} {s : Session} {r : Result (Option Claimed) × Session}
      → Claims c tasks deps visited s r
      → Claims c tasks deps (task ∷ visited) s r
  Claims-later (nothing e) = nothing e
  Claims-later (won g candidate row cl m fit found queued e w) =
      won g candidate row cl (there m) fit found queued e w

  claim_or_lem :
      (g : Ambient) (next : Uow (Option Claimed)) (task : Task) (rest : List Task) (s : Session)
      → eligible c tasks deps task ≡ true
      → Claims c tasks deps rest s (next s)
      → Claims c tasks deps
          (task ∷ rest)
          s
          ((updates (claim_task c.locked (g.now 0) task.id c.worker.id) >>= claim_or g c next) s)
  unfolding claim_task
  claim_or_lem g next task rest s fit later =
      elim (Option-cases (select task_key task.id s.pending.tasks)) [
        | inl gone ↦ rw (gone, claim_or, claim_task) (Claims-later later)
        | inr (row, found) ↦
            elim (Bool-cases ((row.status ≟ TaskStatus.queued) && not (c.locked task.id))) [
              | inr raced ↦ rw (found, claim_or, claim_task, raced) (Claims-later later)
              | inl free ↦
                  let taken : Task = claim_row (g.now 0) c.worker.id row in
                  let t : Session = record s {
                    pending = record s.pending {
                      tasks =
                          modify task_key task.id (claim_row (g.now 0) c.worker.id) s.pending.tasks;
                    };
                  } in
                  let (cl, e, task_is, execution_is, lease_is, durable, same, executions, leases) =
                    record_claim_lem g c taken t in
                  rw (found, claim_or, claim_task, free)
                    (won g task row cl (here refl) fit found (ground arith) e (record {
                      task_is = task_is;
                      execution_is = rw task_is execution_is;
                      lease_is = rw task_is lease_is;
                      durable = durable;
                      tasks_are = same;
                      executions_are = rw execution_is executions;
                      leases_are = rw lease_is leases;
                    }))
            ]
      ]

  pub claim_first-Claims :
      (g : Ambient) (visited : List Task) (s : Session)
      → Claims c tasks deps visited s (claim_first g c tasks deps visited s)
  unfolding claim_first
  claim_first-Claims g [] s = nothing refl
  claim_first-Claims g (task ∷ rest) s = elim (Bool-cases (eligible c tasks deps task)) [
    | inl fit ↦ rw fit (
        claim_or_lem g (claim_first (shift 8 g) c tasks deps rest) task rest s fit
          (claim_first-Claims (shift 8 g) rest s))
    | inr unfit ↦ rw unfit (Claims-later (claim_first-Claims (shift 8 g) rest s))
  ]
