-- ===== src/Scheduler/Safety.antt =====
-- What a call of the scheduler guarantees.
use aura_automated_user_rag.Base.{
  ℕ, true, none, some, List, [], ◌∷◌, ◌++◌, ◌≡◌, ◌⊎◌, inl, inr, refl, sym, ap, ◌∙◌, subst, arith,
  ◌==◌, ◌≟◌, elem, In, here, In-append, In-cons, not-In-nil, In-filter, append-eq-nil,
  In-append_left, In-append_right, ==_iff, filter, select, modify, select-modify, Option-cases,
  Bool-cases, ok, ok-injective,
}
use aura_automated_user_rag.Domain.Events.{Ambient, shift}
use aura_automated_user_rag.Domain.Tasks.{Task, TaskDependency, TaskStatus, task_status_eq}
use aura_automated_user_rag.Store.{Database}
use aura_automated_user_rag.Store.Work.{Session, Uow}
use aura_automated_user_rag.Store.TaskRows.{
  task_key, move_row, tasks_of_mission, dependencies_of_mission,
}
use aura_automated_user_rag.Store.Rows.{get_mission_row}
use aura_automated_user_rag.Domain.Missions.{MissionStatus, mission_status_eq}
use aura_automated_user_rag.Scheduler.{
  Flags, block_task, queue_task, act_on, schedule_task, schedule_tasks, schedule_mission,
  schedule_body, schedule_ready_tasks, commit_if_any,
}
use aura_automated_user_rag.Scheduler.Readiness.{
  Fulfilled, Checked, check_dependencies_lem, satisfied, hopeless, waiting,
}
use aura_automated_user_rag.Scheduler.Effects.{
  Blocked, Queued, kept, lost, block_task_lem, queue_task_lem,
}

abbrev pub HasStatus : TaskStatus → List Task → ℕ → Type 0
HasStatus status rows k = (row : Task) × (select task_key k rows ≡ some row) × (row.status ≡ status)

-- A task that may be queued: it waits, and all that it depends on has succeeded.
pub record Schedulable (tasks : List Task) (deps : List TaskDependency) (x : Task) : Type 0 where
  pub waits : elem x.status (TaskStatus.pending ∷ TaskStatus.blocked ∷ []) ≡ true
  pub fulfilled : (d : TaskDependency) → In d deps → d.task_id ≡ x.id → Fulfilled tasks d

-- From `s` to `t` the tasks `ready` of the list `visited` were queued.
pub record Step (tasks : List Task) (deps : List TaskDependency) (visited ready : List Task)
    (s t : Session) : Type 0 where
  pub queued :
      (k : ℕ)
      → HasStatus TaskStatus.queued t.pending.tasks k
      → HasStatus TaskStatus.queued s.pending.tasks k ⊎ ((x : Task) × In x ready × (x.id ≡ k))
  pub chosen : (x : Task) → In x ready → In x visited × Schedulable tasks deps x
  pub durable : ready ≡ [] → s.committed ≡ s.pending → t.committed ≡ t.pending

-- Rows that keep their statuses but for one row under `k`.
HasStatus-move :
    (status to : TaskStatus) (now k j : ℕ) (rows : List Task)
    → HasStatus status (modify task_key k (move_row now to) rows) j
    → HasStatus status rows j ⊎ ((status ≡ to) × (k ≡ j))
HasStatus-move status to now k j rows (row, found, e) =
    let law = select-modify task_key (move_row now to) (λ a. refl) k j rows in
    elim (Bool-cases (k == j)) [
      | inl same ↦ elim (Option-cases (select task_key j rows)) [
        | inl gone ↦
            let empty : none ≡ some row = sym (rw (same, gone) at law) ∙ found in absurd (cc)
        | inr (old, held) ↦
            let moved : some (move_row now to old) ≡ some row =
              sym (rw (same, held) at law) ∙ found in
            inr (ground arith, ground arith)
      ]
      | inr other ↦ inl (row, sym (rw other at law) ∙ found, e)
    ]

module _ (g : Ambient) (mission_id : ℕ) (tasks : List Task) (deps : List TaskDependency) where
  Step-stay : (visited : List Task) (s : Session) → Step tasks deps visited [] s s
  Step-stay visited s = record {
    queued = λ k h. inl h;
    chosen = λ x m. absurd (not-In-nil m);
    durable = λ e h. h;
  }

  block_task-Step :
      (task : Task) (s : Session)
      → ((block_task g mission_id task s).0 ≡ ok [])
        × Step tasks deps (task ∷ []) [] s (block_task g mission_id task s).1
  block_task-Step task s = elim (block_task_lem g mission_id task s) [
    | kept e ↦ (ap (λ r. r.0) e, rw e (Step-stay (task ∷ []) s))
    | Blocked.moved e c rows ↦ (
      e,
      record {
        queued = λ k h.
            elim (HasStatus-move TaskStatus.queued TaskStatus.blocked (g.now 0) task.id k
              s.pending.tasks (rw rows at h)) [
                | inl before ↦ inl before
                | inr (impossible, _) ↦ absurd (cc)
              ];
        chosen = λ x m. absurd (not-In-nil m);
        durable = λ _ _. c;
      },
    )
  ]

  queue_task-Step :
      (task : Task) (s : Session)
      → Schedulable tasks deps task
      → (ready : List Task) × ((queue_task g mission_id task s).0 ≡ ok ready)
        × Step tasks deps (task ∷ []) ready s (queue_task g mission_id task s).1
  queue_task-Step task s fit = elim (queue_task_lem g mission_id task s) [
    | lost e ↦ ([], ap (λ r. r.0) e, rw e (Step-stay (task ∷ []) s))
    | Queued.moved e rows ↦ (
      task ∷ [],
      e,
      record {
        queued = λ k h.
            elim (HasStatus-move TaskStatus.queued TaskStatus.queued (g.now 2) task.id k
              (modify task_key task.id (move_row (g.now 0) TaskStatus.ready) s.pending.tasks)
              (rw rows at h)) [
                | inl before ↦
                    elim (HasStatus-move TaskStatus.queued TaskStatus.ready (g.now 0) task.id k
                      s.pending.tasks before) [
                        | inl before ↦ inl before
                        | inr (impossible, _) ↦ absurd (cc)
                      ]
                | inr (_, same) ↦ inr (task, here refl, same)
              ];
        chosen = λ x m. elim (In-cons m) [
          | inl same ↦ (m, subst (Schedulable tasks deps) (sym same) fit)
          | inr no_more ↦ absurd (not-In-nil no_more)
        ];
        durable = λ none_ready _. absurd (cc);
      },
    )
  ]

  -- A program that queues some of the tasks `visited`.
  abbrev Outcome : List Task → Session → Uow (List Task) → Type 0
  Outcome visited s m =
      (ready : List Task) × ((m s).0 ≡ ok ready) × Step tasks deps visited ready s (m s).1

  act_on-Outcome :
      (task : Task) (s : Session) (flags : Flags)
      → elem task.status (TaskStatus.pending ∷ TaskStatus.blocked ∷ []) ≡ true
      → Checked tasks (filter (λ d. d.task_id == task.id) deps) flags
      → Outcome (task ∷ []) s (act_on g mission_id flags task)
  act_on-Outcome task s flags waits (satisfied e all) =
      let fit : Schedulable tasks deps task = record {
        waits = waits;
        fulfilled =
            λ d m same. all d (In-filter (λ d. d.task_id == task.id) deps m ((==_iff _ _).1 same));
      } in
      rw e (queue_task-Step task s fit)
  act_on-Outcome task s flags waits (hopeless e d m h) =
      let (f, step) = block_task-Step task s in rw e ([], f, step)
  act_on-Outcome task s flags waits (waiting e) = rw e ([], refl, Step-stay (task ∷ []) s)

  schedule_task-Outcome :
      (task : Task) (s : Session)
      → Outcome (task ∷ []) s (schedule_task g mission_id tasks deps task)
  unfolding schedule_task
  schedule_task-Outcome task s =
      elim (Bool-cases (elem task.status (TaskStatus.pending ∷ TaskStatus.blocked ∷ []))) [
        | inl waits ↦ rw waits (
            act_on-Outcome task s _ waits
              (check_dependencies_lem tasks (filter (λ d. d.task_id == task.id) deps)))
        | inr other ↦ rw other ([], refl, Step-stay (task ∷ []) s)
      ]

Step-trans :
    {tasks : List Task} {deps : List TaskDependency} {xs ys first more : List Task}
    {s t u : Session}
    → Step tasks deps xs first s t
    → Step tasks deps ys more t u
    → Step tasks deps (xs ++ ys) (first ++ more) s u
Step-trans {xs} {ys} {first} {more} a b = record {
  queued = λ k h. elim (b.queued k h) [
    | inl before ↦ elim (a.queued k before) [
      | inl earlier ↦ inl earlier
      | inr (x, m, e) ↦ inr (x, In-append_left first more m, e)
    ]
    | inr (x, m, e) ↦ inr (x, In-append_right first more m, e)
  ];
  chosen = λ x m. elim (In-append first more m) [
    | inl left ↦ let (v, fit) = a.chosen x left in (In-append_left xs ys v, fit)
    | inr right ↦ let (v, fit) = b.chosen x right in (In-append_right xs ys v, fit)
  ];
  durable = λ e same.
      let (no_first, no_more) = append-eq-nil first more e in
      b.durable no_more (a.durable no_first same);
}

schedule_tasks-Outcome :
    (g : Ambient) (mission_id : ℕ) (tasks : List Task) (deps : List TaskDependency)
    (visited : List Task) (s : Session)
    → Outcome g mission_id tasks deps visited s (schedule_tasks g mission_id tasks deps visited)
unfolding schedule_tasks
schedule_tasks-Outcome g mission_id tasks deps [] s =
    ([], refl, Step-stay g mission_id tasks deps [] s)
schedule_tasks-Outcome g mission_id tasks deps (task ∷ rest) s =
    let (ready, e, one) = schedule_task-Outcome g mission_id tasks deps task s in
    let (more, f, others) =
      schedule_tasks-Outcome (shift 4 g) mission_id tasks deps rest
        (schedule_task g mission_id tasks deps task s).1 in
    (ready ++ more, rw (e, f), rw e (rw f (Step-trans one others)))

-- The commit at the end.
finish :
    {tasks : List Task} {deps : List TaskDependency} {visited : List Task} {d : Database}
    (ready : List Task) (t : Session)
    → Step tasks deps visited ready (record { committed = d; pending = d }) t
    → (x : List Task) × ((commit_if_any ready t).0 ≡ ok x)
      × Step tasks deps visited x (record { committed = d; pending = d }) (commit_if_any ready t).1
      × ((commit_if_any ready t).1.committed ≡ (commit_if_any ready t).1.pending)
finish [] t step = ([], refl, step, step.durable refl refl)
finish (x ∷ xs) t step = (
  x ∷ xs,
  refl,
  record { queued = step.queued; chosen = step.chosen; durable = λ e. absurd (cc) },
  refl,
)

-- The body of the unit of work, from a session that has nothing uncommitted.
schedule_body-Outcome :
    (g : Ambient) (mission_id : ℕ) (d : Database)
    → let s : Session = record { committed = d; pending = d } in
      (ready : List Task) × ((schedule_body g mission_id s).0 ≡ ok ready)
      × Step
          (tasks_of_mission mission_id d)
          (dependencies_of_mission mission_id d)
          (tasks_of_mission mission_id d)
          ready
          s
          (schedule_body g mission_id s).1
      × ((schedule_body g mission_id s).1.committed ≡ (schedule_body g mission_id s).1.pending)
unfolding schedule_body schedule_mission
schedule_body-Outcome g mission_id d = elim (Option-cases (get_mission_row mission_id d)) [
  | inl gone ↦ rw gone ([], refl, stay, refl)
  | inr (m, found) ↦ elim (Bool-cases (m.status ≟ MissionStatus.executing)) [
    | inl executing ↦
        let (ready, e, step) =
          schedule_tasks-Outcome g mission_id (tasks_of_mission mission_id d)
            (dependencies_of_mission mission_id d) (tasks_of_mission mission_id d) s in
        rw (found, executing, e) (finish ready _ step)
    | inr other ↦ rw (found, other) ([], refl, stay, refl)
  ]
]
  where
    s : Session
    s = record { committed = d; pending = d }

    stay :
        Step
          (tasks_of_mission mission_id d)
          (dependencies_of_mission mission_id d)
          (tasks_of_mission mission_id d)
          []
          s
          s
    stay =
        Step-stay g mission_id (tasks_of_mission mission_id d)
          (dependencies_of_mission mission_id d) (tasks_of_mission mission_id d) s

-- One call of the scheduler returns, raising nothing, and all that it wrote is committed.
pub schedule_durable :
    (g : Ambient) (mission_id : ℕ) (d : Database)
    → let s : Session = record { committed = d; pending = d } in
      (ready : List Task) × ((schedule_ready_tasks g mission_id d).0 ≡ ok ready)
      × ((schedule_ready_tasks g mission_id d).1 ≡ (schedule_body g mission_id s).1.pending)
unfolding schedule_ready_tasks
schedule_durable g mission_id d =
    let (ready, e, step, same) = schedule_body-Outcome g mission_id d in (ready, e, same)

-- Every task that a call of the scheduler returns as queued belongs to the mission, was PENDING or
-- BLOCKED, and each of its dependencies is on a task of the mission that had SUCCEEDED.
pub scheduled-Schedulable :
    (g : Ambient) (mission_id : ℕ) (d : Database) (ready : List Task) (x : Task)
    → (schedule_ready_tasks g mission_id d).0 ≡ ok ready
    → In x ready
    → In x (tasks_of_mission mission_id d)
      × Schedulable (tasks_of_mission mission_id d) (dependencies_of_mission mission_id d) x
unfolding schedule_ready_tasks
scheduled-Schedulable g mission_id d ready x returned m =
    let (found, e, step, same) = schedule_body-Outcome g mission_id d in
    step.chosen x (subst (In x) (ok-injective (sym returned ∙ e)) m)

-- After a call of the scheduler, a task is QUEUED in the durable database only if it was before or
-- if the call returns it.
pub queued-scheduled :
    (g : Ambient) (mission_id : ℕ) (d : Database) (ready : List Task) (k : ℕ)
    → (schedule_ready_tasks g mission_id d).0 ≡ ok ready
    → HasStatus TaskStatus.queued (schedule_ready_tasks g mission_id d).1.tasks k
    → HasStatus TaskStatus.queued d.tasks k ⊎ ((x : Task) × In x ready × (x.id ≡ k))
unfolding schedule_ready_tasks
queued-scheduled g mission_id d ready k returned h =
    let (found, e, step, same) = schedule_body-Outcome g mission_id d in
    subst (λ r. HasStatus TaskStatus.queued d.tasks k ⊎ ((x : Task) × In x r × (x.id ≡ k)))
      (ok-injective (sym e ∙ returned)) (step.queued k (rw same at h))
