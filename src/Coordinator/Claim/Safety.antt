-- ===== src/Coordinator/Claim/Safety.antt =====
-- What a claim guarantees.
use aura_automated_user_rag.Base.{
  ℕ, ◌+◌, true, none, some, List, [], ◌∷◌, ◌++◌, ◌≡◌, ◌≢◌, inl, inr, refl, sym, ap, ◌∙◌, subst,
  arith, ◌==◌, ==_iff, ==_refl, ==_false, ◌≟◌, In, In-cons, In-sorted, In-filter, not-In-nil,
  filter, sorted, select, key-select, select-modify, Option-cases, Bool-cases, ok, ok-injective,
}
use mathlib.Core.Option
use mathlib.Core.Path.{subst₂}
use aura_automated_user_rag.Domain.Events.{Ambient}
use aura_automated_user_rag.Domain.Missions.{Mission, MissionStatus, mission_status_eq}
use aura_automated_user_rag.Domain.Tasks.{Task, TaskDependency, TaskStatus, task_status_eq}
use aura_automated_user_rag.Store.{Database}
use aura_automated_user_rag.Store.Work.{Session}
use aura_automated_user_rag.Store.TaskRows.{
  task_key, claim_row, tasks_of_mission, dependencies_of_mission,
}
use aura_automated_user_rag.Store.Rows.{get_mission_row}
use aura_automated_user_rag.Scheduler.Readiness.{Fulfilled}
use aura_automated_user_rag.Coordinator.{Coordinator, has_required_capabilities}
use aura_automated_user_rag.Coordinator.Claim.{
  Claimed, claim_order, dependencies_met, eligible, claim_body, claim_in_mission, claim_next_task,
}
use aura_automated_user_rag.Coordinator.Claim.Effects.{
  Claims, Won, nothing, won, claim_first-Claims,
}

-- The claim was rightful in the database `d`.
pub record Rightful (c : Coordinator) (d : Database) (cl : Claimed) : Type 0 where
  pub executing :
      (m : Mission) × (get_mission_row c.mission_id d ≡ some m)
      × (m.status ≡ MissionStatus.executing)
  pub candidate : Task
  pub named : candidate.id ≡ cl.task.id
  pub listed : In candidate (tasks_of_mission c.mission_id d)
  pub capable : has_required_capabilities c candidate ≡ true
  pub fulfilled :
      (dep : TaskDependency)
      → In dep (dependencies_of_mission c.mission_id d)
      → dep.task_id ≡ candidate.id
      → Fulfilled (tasks_of_mission c.mission_id d) dep

-- The claim changed the database `d` into `d'`.
pub record Recorded (c : Coordinator) (d d' : Database) (cl : Claimed) : Type 0 where
  pub before : Task
  pub found : select task_key cl.task.id d.tasks ≡ some before
  pub queued : before.status ≡ TaskStatus.queued
  pub running : select task_key cl.task.id d'.tasks ≡ some cl.task
  pub status_is : cl.task.status ≡ TaskStatus.running
  pub attempt_is : cl.task.attempt_count ≡ before.attempt_count + 1
  pub others : (k : ℕ) → k ≢ cl.task.id → select task_key k d'.tasks ≡ select task_key k d.tasks
  pub leased : d'.task_leases ≡ d.task_leases ++ cl.lease ∷ []
  pub lease_owner : cl.lease.worker_id ≡ c.worker.id
  pub lease_task : cl.lease.task_id ≡ cl.task.id
  pub lease_execution : cl.lease.task_execution_id ≡ cl.execution.id
  pub lease_ends : cl.lease.lease_expires_at ≡ cl.lease.claimed_at + c.lease_ttl_seconds
  pub executed : d'.task_executions ≡ d.task_executions ++ cl.execution ∷ []

dependencies_met-Fulfilled :
    (tasks : List Task) (deps : List TaskDependency)
    → dependencies_met tasks deps ≡ true
    → (d : TaskDependency) → In d deps
    → Fulfilled tasks d
unfolding dependencies_met
dependencies_met-Fulfilled tasks [] h d m = absurd (not-In-nil m)
dependencies_met-Fulfilled tasks (d ∷ deps) h x m =
    elim (Option-cases (select task_key d.depends_on_task_id tasks)) [
      | inl gone ↦ absurd (ground arith)
      | inr (parent, found) ↦ elim (Bool-cases (parent.status ≟ TaskStatus.succeeded)) [
        | inr other ↦ absurd (ground arith)
        | inl done ↦ elim (In-cons m) [
          | inl e ↦ subst (Fulfilled tasks) (sym e) (parent, found, ground arith)
          | inr later ↦ dependencies_met-Fulfilled tasks deps (ground arith) x later
        ]
      ]
    ]

module _ (c : Coordinator) (d : Database) where
  abbrev opened : Session
  opened = record { committed = d; pending = d }

  eligible-parts :
      (tasks : List Task) (deps : List TaskDependency) (task : Task)
      → eligible c tasks deps task ≡ true
      → (has_required_capabilities c task ≡ true)
        × (dependencies_met tasks (filter (λ x. x.task_id == task.id) deps) ≡ true)
  eligible-parts tasks deps task h = (ground arith, ground arith)

  Won-Rightful :
      (m : Mission) (g : Ambient) (candidate row : Task) (cl : Claimed) (t : Session)
      → get_mission_row c.mission_id d ≡ some m
      → m.status ≡ MissionStatus.executing
      → In candidate (tasks_of_mission c.mission_id d)
      → eligible c
          (tasks_of_mission c.mission_id d)
          (dependencies_of_mission c.mission_id d)
          candidate
        ≡ true
      → select task_key candidate.id d.tasks ≡ some row
      → Won g c opened candidate.id row cl t
      → Rightful c d cl
  Won-Rightful m g candidate row cl t found executing listed fit held w =
      let (capable, met) =
        eligible-parts (tasks_of_mission c.mission_id d) (dependencies_of_mission c.mission_id d)
          candidate fit in
      record {
        executing = (m, found, executing);
        candidate = candidate;
        named = sym (ap task_key w.task_is ∙ key-select task_key candidate.id d.tasks held);
        listed = listed;
        capable = capable;
        fulfilled = λ dep member same.
            dependencies_met-Fulfilled (tasks_of_mission c.mission_id d)
              (filter (λ x. x.task_id == candidate.id) (dependencies_of_mission c.mission_id d)) met
              dep
              (In-filter (λ x. x.task_id == candidate.id) (dependencies_of_mission c.mission_id d)
                member ((==_iff _ _).1 same));
      }

  Won-Recorded :
      (g : Ambient) (k : ℕ) (row : Task) (cl : Claimed) (t : Session)
      → select task_key k d.tasks ≡ some row
      → row.status ≡ TaskStatus.queued
      → Won g c opened k row cl t
      → Recorded c d t.committed cl
  Won-Recorded g k row cl t held queued w =
      let id_is : cl.task.id ≡ k = ap task_key w.task_is ∙ key-select task_key k d.tasks held in
      let law = λ (j : ℕ).
        select-modify task_key (claim_row (g.now 0) c.worker.id) (λ a. refl) k j d.tasks in
      record {
        before = row;
        found = rw id_is held;
        queued = queued;
        running =
            subst (λ i. select task_key i t.committed.tasks ≡ some cl.task) (sym id_is)
              (rw (w.durable, w.tasks_are)
                (law k ∙ rw (==_refl k, held) (ap some (sym w.task_is))));
        status_is = rw w.task_is refl;
        attempt_is = rw w.task_is refl;
        others = λ j differ.
            rw (w.durable, w.tasks_are)
              (law j ∙ rw (==_false k j (λ e. differ (sym e ∙ sym id_is))) refl);
        leased = rw w.durable w.leases_are;
        lease_owner = rw w.lease_is refl;
        lease_task = rw w.lease_is refl;
        lease_execution = rw (w.lease_is, w.execution_is) refl;
        lease_ends = rw w.lease_is refl;
        executed = rw w.durable w.executions_are;
      }

  claim_in_mission-Claims :
      (g : Ambient)
      → Claims c
          (tasks_of_mission c.mission_id d)
          (dependencies_of_mission c.mission_id d)
          (sorted claim_order (tasks_of_mission c.mission_id d))
          opened
          (claim_in_mission g c opened)
  unfolding claim_in_mission
  claim_in_mission-Claims g =
      claim_first-Claims c (tasks_of_mission c.mission_id d)
        (dependencies_of_mission c.mission_id d) g
        (sorted claim_order (tasks_of_mission c.mission_id d)) opened

-- A claim that is returned was rightful: the mission was executing, and a task of the mission with
-- the claimed identifier suited the worker and all its dependencies had succeeded. It is recorded:
-- the row, which was QUEUED, is the RUNNING task that is returned, with one more attempt, no
-- other row of a task is changed, and the lease of the worker and the execution are stored.
pub claim_next_task-Rightful :
    (g : Ambient) (c : Coordinator) (d d' : Database) (cl : Claimed)
    → claim_next_task g c d ≡ (ok (some cl), d')
    → Rightful c d cl × Recorded c d d' cl
unfolding claim_next_task
claim_next_task-Rightful g c d d' cl h = elim (Option-cases (get_mission_row c.mission_id d)) [
  | inl gone ↦
      let none_claimed : ok none ≡ ok (some cl) = ap (λ r. r.0) (rw (gone, claim_body) at h) in
      absurd (cc)
  | inr (m, found) ↦ elim (Bool-cases (m.status ≟ MissionStatus.executing)) [
    | inr idle ↦
        let none_claimed : ok none ≡ ok (some cl) =
          ap (λ r. r.0) (rw (found, claim_body, idle) at h) in
        absurd (cc)
    | inl active ↦
        let got : (claim_in_mission g c (opened c d)).0 ≡ ok (some cl) =
          ap (λ r. r.0) (rw (found, claim_body, active) at h) in
        let left : (claim_in_mission g c (opened c d)).1.committed ≡ d' =
          ap (λ r. r.1) (rw (found, claim_body, active) at h) in
        elim (claim_in_mission-Claims c d g) [
          | nothing e ↦
              let none_claimed : ok none ≡ ok (some cl) = sym (ap (λ r. r.0) e) ∙ got in absurd (cc)
          | won g' candidate row cl' listed fit held queued e w ↦
              let same : cl' ≡ cl = Option.some-injective cl' cl (ok-injective (sym e ∙ got)) in
              (
                subst (Rightful c d) same (
                    Won-Rightful c d m g' candidate row cl' (claim_in_mission g c (opened c d)).1
                      found (ground arith)
                      (In-sorted claim_order (tasks_of_mission c.mission_id d) listed) fit held w),
                subst₂ (Recorded c d) left same (
                    Won-Recorded c d g' candidate.id row cl' (claim_in_mission g c (opened c d)).1
                      held queued w),
              )
        ]
  ]
]

-- Two claims in a row, by whatever workers, are of different tasks.
pub claims_differ :
    (g g' : Ambient) (c c' : Coordinator) (d d' d'' : Database) (cl cl' : Claimed)
    → claim_next_task g c d ≡ (ok (some cl), d')
    → claim_next_task g' c' d' ≡ (ok (some cl'), d'')
    → cl.task.id ≢ cl'.task.id
claims_differ g g' c c' d d' d'' cl cl' first second same =
    let old = (claim_next_task-Rightful g c d d' cl first).1 in
    let new = (claim_next_task-Rightful g' c' d' d'' cl' second).1 in
    let found : select task_key cl.task.id d'.tasks ≡ some new.before =
      subst (λ k. select task_key k d'.tasks ≡ some new.before) (sym same) new.found in
    let row : cl.task ≡ new.before =
      Option.some-injective cl.task new.before (sym old.running ∙ found) in
    let clash : TaskStatus.running ≡ TaskStatus.queued =
      sym old.status_is ∙ ap (λ t. t.status) row ∙ new.queued in
    absurd (cc)
