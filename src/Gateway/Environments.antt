-- ===== src/Gateway/Environments.antt =====
-- The environment in which the tools run commands.
use aura_automated_user_rag.Base.{
  ℕ, ◌≤◌, Bool, true, false, some, List, [], ◌∷◌, ◌≡◌, inl, inr, refl, sym, subst, arith, ltb,
  filter, In, here, there, In-cons, In-filter, not-In-nil, ◌⊎◌, Bool-cases, if◌then◌else◌,
}
use mathlib.Core.Option
use aura_automated_user_rag.Domain.Executions.{ExecutionEnvironment}
use aura_automated_user_rag.Store.{Database}
use aura_automated_user_rag.Store.AgentRows.{environments_of_execution}
use aura_automated_user_rag.Gateway.Commands.{is_usable, newest, latest, usable_environment}

filter-In :
    {A : Type 0} (p : A → Bool) (xs : List A) {a : A} → In a (filter p xs) → In a xs × (p a ≡ true)
filter-In p [] m = elim m [ ]
filter-In p (x ∷ xs) {a} m = elim (Bool-cases (p x)) [
  | inr out ↦
      let m' : In a (filter p xs) = rw out at m in
      let (found, holds_it) = filter-In p xs m' in (there found, holds_it)
  | inl kept ↦
      let m' : In a (x ∷ filter p xs) = rw kept at m in
      elim (In-cons m') [
        | inl e ↦ (here e, subst (λ y. p y ≡ true) (sym e) kept)
        | inr rest ↦ let (found, holds_it) = filter-In p xs rest in (there found, holds_it)
      ]
]

-- A choice that is one of the candidates, none of which was created after it.
abbrev pub Newest : ExecutionEnvironment → List ExecutionEnvironment → Type 0
Newest chosen envs =
    In chosen envs
    × ((env : ExecutionEnvironment) → In env envs → env.created_at ≤ chosen.created_at)

step-Newest :
    (best x : ExecutionEnvironment) (xs : List ExecutionEnvironment) (later : Bool)
    → ltb best.created_at x.created_at ≡ later
    → ((y : ExecutionEnvironment) → Newest (newest y xs) (y ∷ xs))
    → Newest (newest (if later then x else best) xs) (best ∷ x ∷ xs)
step-Newest best x xs true h ih =
    let (found, most) = ih x in
    let bound : x.created_at ≤ (newest x xs).created_at = most x (here refl) in
    (
      there found,
      λ env m. elim (In-cons m) [
        | inr rest ↦ most env rest
        | inl e ↦ subst (λ y. y.created_at ≤ (newest x xs).created_at) (sym e) (ground arith)
      ],
    )
step-Newest best x xs false h ih =
    let (found, most) = ih best in
    let bound : best.created_at ≤ (newest best xs).created_at = most best (here refl) in
    (
      elim (In-cons found) [ inl e ↦ here e | inr rest ↦ there (there rest) ],
      λ env m. elim (In-cons m) [
        | inl e ↦ most env (here e)
        | inr rest ↦ elim (In-cons rest) [
          | inr later ↦ most env (there later)
          | inl e ↦ subst (λ y. y.created_at ≤ (newest best xs).created_at) (sym e) (ground arith)
        ]
      ],
    )

newest-Newest :
    (best : ExecutionEnvironment) (envs : List ExecutionEnvironment)
    → Newest (newest best envs) (best ∷ envs)
newest-Newest best [] = (here refl, λ env m. alone env (In-cons m))
  where
    alone :
        (env : ExecutionEnvironment) → (env ≡ best) ⊎ In env [] → env.created_at ≤ best.created_at
    alone env (inl e) = subst (λ x. x.created_at ≤ best.created_at) (sym e) (omega arith)
    alone env (inr m) = absurd (not-In-nil m)
newest-Newest best (x ∷ xs) =
    step-Newest best x xs (ltb best.created_at x.created_at) refl (λ y. newest-Newest y xs)

latest-Newest :
    (envs : List ExecutionEnvironment) (chosen : ExecutionEnvironment)
    → latest envs ≡ some chosen
    → Newest chosen envs
latest-Newest [] chosen h = absurd (cc)
latest-Newest (x ∷ xs) chosen h =
    let e : newest x xs ≡ chosen = Option.some-injective (newest x xs) chosen h in
    subst (λ (c : ExecutionEnvironment). Newest c (x ∷ xs)) e (newest-Newest x xs)

-- The environment that `_run_command` and `_run_tests` choose is an environment of the task
-- execution that is READY and has a worktree, and none of those was created after it.
pub usable_environment-latest :
    (task_execution_id : ℕ) (d : Database) (chosen : ExecutionEnvironment)
    → usable_environment task_execution_id d ≡ some chosen
    → In chosen (environments_of_execution task_execution_id d)
      × (is_usable chosen ≡ true)
      × ((env : ExecutionEnvironment)
          → In env (environments_of_execution task_execution_id d)
          → is_usable env ≡ true
          → env.created_at ≤ chosen.created_at)
unfolding usable_environment
usable_environment-latest task_execution_id d chosen h =
    let envs = environments_of_execution task_execution_id d in
    let (found, most) = latest-Newest (filter is_usable envs) chosen h in
    let (stored, usable) = filter-In is_usable envs found in
    (stored, usable, λ env m u. most env (In-filter is_usable envs m u))
