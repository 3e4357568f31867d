-- ===== src/Scheduler/Readiness.antt =====
-- The flags of a task say what its dependencies are.
use aura_automated_user_rag.Base.{
  true, false, none, some, List, [], ◌∷◌, ◌≡◌, ◌⊎◌, inl, inr, refl, arith, elem, In, here, there,
  select, Option-cases, Bool-cases, ◌∙◌, sym, subst, In-cons, not-In-nil, ◌≟◌,
}
use aura_automated_user_rag.Domain.Tasks.{Task, TaskDependency, TaskStatus, task_status_eq}
use aura_automated_user_rag.Store.TaskRows.{task_key}
use aura_automated_user_rag.Scheduler.{Flags, check_dependencies, terminal_failure}

-- The task that a dependency waits for has succeeded.
abbrev pub Fulfilled : List Task → TaskDependency → Type 0
Fulfilled tasks d =
    (parent : Task) × (select task_key d.depends_on_task_id tasks ≡ some parent)
    × (parent.status ≡ TaskStatus.succeeded)

-- It is missing, or it failed or was cancelled.
abbrev pub Hopeless : List Task → TaskDependency → Type 0
Hopeless tasks d =
    (select task_key d.depends_on_task_id tasks ≡ none)
    ⊎ ((parent : Task) × (select task_key d.depends_on_task_id tasks ≡ some parent)
        × (elem parent.status terminal_failure ≡ true))

-- The flags by the first dependency.
pub data Checked (tasks : List Task) (ds : List TaskDependency) : Flags → Type 0 where
  satisfied :
      {f : Flags}
      → f ≡ record { all_succeeded = true; blocked = false }
      → ((d : TaskDependency) → In d ds → Fulfilled tasks d)
      → Checked tasks ds f
  hopeless :
      {f : Flags}
      → f ≡ record { all_succeeded = true; blocked = true }
      → (d : TaskDependency) → In d ds
      → Hopeless tasks d
      → Checked tasks ds f
  waiting : {f : Flags} → f ≡ record { all_succeeded = false; blocked = false } → Checked tasks ds f

Checked-cons :
    {tasks : List Task} {d : TaskDependency} {ds : List TaskDependency} {f g : Flags}
    → g ≡ f
    → Fulfilled tasks d
    → Checked tasks ds f
    → Checked tasks (d ∷ ds) g
Checked-cons {tasks} same first (satisfied e all) = satisfied (same ∙ e) λ x m. elim (In-cons m) [
  | inl head ↦ subst (Fulfilled tasks) (sym head) first
  | inr later ↦ all x later
]
Checked-cons same first (hopeless e d m h) = hopeless (same ∙ e) d (there m) h
Checked-cons same first (waiting e) = waiting (same ∙ e)

pub check_dependencies_lem :
    (tasks : List Task) (ds : List TaskDependency) → Checked tasks ds (check_dependencies tasks ds)
unfolding check_dependencies
check_dependencies_lem tasks [] = satisfied refl (λ d m. absurd (not-In-nil m))
check_dependencies_lem tasks (d ∷ ds) =
    elim (Option-cases (select task_key d.depends_on_task_id tasks)) [
      | inl missing ↦ hopeless (rw (missing, check_dependencies)) d (here refl) (inl missing)
      | inr (parent, found) ↦ elim (Bool-cases (elem parent.status terminal_failure)) [
        | inl failed ↦
            hopeless (rw (found, check_dependencies, failed)) d (here refl)
              (inr (parent, found, failed))
        | inr alive ↦ elim (Bool-cases (parent.status ≟ TaskStatus.succeeded)) [
          | inl done ↦
              Checked-cons (rw (found, check_dependencies, alive, done))
                (parent, found, ground arith) (check_dependencies_lem tasks ds)
          | inr other ↦ waiting (rw (found, check_dependencies, alive, other))
        ]
      ]
    ]
