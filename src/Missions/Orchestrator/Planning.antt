-- ===== src/Missions/Orchestrator/Planning.antt =====
-- The dependencies of a mission stay a graph without cycles.
use aura_automated_user_rag.Base.{
  ℕ, suc, ◌*◌, ◌≤◌, Bool, true, Option, none, some, List, [], ◌∷◌, ◌++◌, ◌≡◌, ◌⊎◌, inl, inr, refl,
  sym, ap, ◌∙◌, subst, arith, ◌==◌, ==_iff, ◌&&◌, length, filter, Bool-cases, Result, result-cases,
  ok, raise, Exception, value_error,
}
use aura_automated_user_rag.Dag.{validate_new_dependency}
use aura_automated_user_rag.Dag.Paths.{edge, Plus-mono, IsAcyclic}
use aura_automated_user_rag.Dag.Validation.{validate_iff}
use aura_automated_user_rag.Domain.Tasks.{Task, TaskDependency}
use aura_automated_user_rag.Store.{Database}
use aura_automated_user_rag.Store.TaskRows.{
  get_task, add_task_dependency, dependencies_of_mission, of_mission,
}
use aura_automated_user_rag.Missions.Orchestrator.{add_between, add_dependency}

module _ (depth mission_id : ℕ) (dependency : TaskDependency) (d : Database) where
  -- The dependency is refused and nothing is stored, or it is stored after the checks.
  pub data Added (r : Result (Unit {0}) × Database) : Type 0 where
    refused : (e : Exception) → r ≡ (raise e, d) → Added r
    stored :
        (t1 t2 : Task)
        → get_task dependency.task_id d ≡ some t1
        → get_task dependency.depends_on_task_id d ≡ some t2
        → t1.mission_id ≡ mission_id
        → t2.mission_id ≡ mission_id
        → validate_new_dependency depth dependency (dependencies_of_mission mission_id d) ≡ ok tt
        → r ≡ (ok tt, add_task_dependency dependency d)
        → Added r

  add_between-Added :
      (o1 o2 : Option Task)
      → get_task dependency.task_id d ≡ o1
      → get_task dependency.depends_on_task_id d ≡ o2
      → Added (add_dependency depth mission_id dependency d)
  unfolding add_dependency
  add_between-Added none o2 e1 e2 =
      refused (value_error "Both tasks must exist") (rw (e1, add_between) refl)
  add_between-Added (some t1) none e1 e2 =
      refused (value_error "Both tasks must exist") (rw (e1, e2, add_between) refl)
  add_between-Added (some t1) (some t2) e1 e2 =
      elim (Bool-cases ((t1.mission_id == mission_id) && (t2.mission_id == mission_id))) [
        | inr elsewhere ↦
            refused (value_error "Tasks must belong to the mission")
              (rw (e1, e2, add_between, elsewhere) refl)
        | inl inside ↦
            elim (result-cases
              (validate_new_dependency depth dependency (dependencies_of_mission mission_id d))) [
                | inl (u, valid) ↦
                    stored t1 t2 e1 e2 (ground arith) (ground arith) valid
                      (rw (e1, e2, add_between, inside, valid) refl)
                | inr (e, invalid) ↦ refused e (rw (e1, e2, add_between, inside, invalid) refl)
              ]
      ]

filter-append_one :
    {A : Type 0} (p : A → Bool) (xs : List A) (x : A)
    → p x ≡ true
    → filter p (xs ++ x ∷ []) ≡ filter p xs ++ x ∷ []
filter-append_one p [] x h = rw h refl
filter-append_one p (y ∷ ys) x h = elim (Bool-cases (p y)) [
  | inl kept ↦ rw kept (ap (λ zs. y ∷ zs) (filter-append_one p ys x h))
  | inr out ↦ rw out (filter-append_one p ys x h)
]

edge-append_one :
    (deps : List TaskDependency) (d : TaskDependency) (u v : ℕ)
    → edge (deps ++ d ∷ []) u v ≡ true
    → edge (d ∷ deps) u v ≡ true
edge-append_one [] d u v h = h
edge-append_one (x ∷ deps) d u v h = ground (arith, edge-append_one deps d u v)

module _ (depth mission_id : ℕ) (dependency : TaskDependency) (d : Database) where
  stored-dependencies :
      (t1 : Task)
      → get_task dependency.task_id d ≡ some t1
      → t1.mission_id ≡ mission_id
      → dependencies_of_mission mission_id (add_task_dependency dependency d)
        ≡ dependencies_of_mission mission_id d ++ dependency ∷ []
  unfolding dependencies_of_mission add_task_dependency get_task
  stored-dependencies t1 found inside =
      filter-append_one (of_mission mission_id d.tasks) d.task_dependencies dependency
        (rw (of_mission, found) ((==_iff _ _).1 inside))

  -- With an interpreter that recurs deep enough, `add_dependency` either raises and stores nothing, or
  -- it returns after adding exactly the one dependency to those of the mission, which have no cycle
  -- then.
  pub add_dependency-IsAcyclic :
      2 * suc (length (dependencies_of_mission mission_id d)) ≤ depth
      → ((e : Exception) × (add_dependency depth mission_id dependency d ≡ (raise e, d)))
        ⊎ (((add_dependency depth mission_id dependency d).0 ≡ ok tt)
            × (dependencies_of_mission mission_id (add_dependency depth mission_id dependency d).1
                ≡ dependencies_of_mission mission_id d ++ dependency ∷ [])
            × IsAcyclic (
                edge (
                  dependencies_of_mission mission_id
                    (add_dependency depth mission_id dependency d).1)))
  add_dependency-IsAcyclic enough =
      elim (add_between-Added depth mission_id dependency d (get_task dependency.task_id d)
        (get_task dependency.depends_on_task_id d) refl refl) [
          | refused e same ↦ inl (e, same)
          | stored t1 t2 found1 found2 in1 in2 valid same ↦
              let deps : List TaskDependency = dependencies_of_mission mission_id d in
              let now : dependencies_of_mission mission_id
                    (add_dependency depth mission_id dependency d).1
                  ≡ deps ++ dependency ∷ [] =
                ap (λ r. dependencies_of_mission mission_id r.1) same
                ∙ stored-dependencies t1 found1 in1 in
              let (_, _, acyclic) = (validate_iff depth dependency deps enough).0 valid in
              inr (
                ap (λ r. r.0) same,
                now,
                subst (λ xs. IsAcyclic (edge xs)) (sym now)
                    (λ v cycle. acyclic v (Plus-mono (edge-append_one deps dependency) cycle)),
              )
        ]
