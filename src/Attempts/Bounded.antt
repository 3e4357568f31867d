-- ===== src/Attempts/Bounded.antt =====
-- A task never has more attempts than its maximum, and one that may still be claimed has fewer.
use mathlib.Core.Option
use aura_automated_user_rag.Base.{
  ℕ, ◌<◌, ◌≤◌, Bool, true, none, some, List, [], ◌∷◌, ◌++◌, ◌≡◌, inl, inr, refl, sym, ap, ◌∙◌,
  subst, arith, ◌==◌, ==_iff, elem, select, modify, select-modify, select-append,
  select-append_some, Option-cases, Bool-cases,
}
use aura_automated_user_rag.Domain.Tasks.{Task, TaskStatus, task_status_eq}
use aura_automated_user_rag.Store.TaskRows.{task_key, write_task, claim_row, move_row}

-- The statuses of the tasks that wait for an attempt.
abbrev pub waiting : TaskStatus → Bool
waiting s =
    elem s (TaskStatus.pending ∷ TaskStatus.blocked ∷ TaskStatus.ready ∷ TaskStatus.queued ∷ [])

abbrev pub Bounded : Task → Type 0
Bounded task =
    (task.attempt_count ≤ task.max_attempts)
    × (waiting task.status ≡ true → task.attempt_count < task.max_attempts)

-- Every row that can be read is so.
abbrev pub AllBounded : List Task → Type 0
AllBounded rows = (k : ℕ) (row : Task) → select task_key k rows ≡ some row → Bounded row

pub modify-AllBounded :
    (f : Task → Task) (k : ℕ) (rows : List Task)
    → ((a : Task) → task_key (f a) ≡ task_key a)
    → ((row : Task) → select task_key k rows ≡ some row → Bounded row → Bounded (f row))
    → AllBounded rows
    → AllBounded (modify task_key k f rows)
modify-AllBounded f k rows keeps step all j row found =
    let law = select-modify task_key f keeps k j rows in
    elim (Bool-cases (k == j)) [
      | inr other ↦ all j row (sym (rw other at law) ∙ found)
      | inl same ↦ elim (Option-cases (select task_key j rows)) [
        | inl gone ↦
            let empty : none ≡ some row = sym (rw (same, gone) at law) ∙ found in absurd (cc)
        | inr (old, held) ↦
            let now_row : f old ≡ row =
              Option.some-injective (f old) row (sym (rw (same, held) at law) ∙ found) in
            let held_k : select task_key k rows ≡ some old =
              subst (λ i. select task_key i rows ≡ some old) (sym ((==_iff k j).0 same)) held in
            subst Bounded now_row (step old held_k (all j old held))
      ]
    ]

-- A task that was read from a row and changed, and is written back to the row.
pub write_task-AllBounded :
    (task old : Task) (rows : List Task)
    → select task_key task.id rows ≡ some old
    → old.max_attempts ≡ task.max_attempts
    → (Bounded old → Bounded task)
    → AllBounded rows
    → AllBounded (modify task_key task.id (write_task task) rows)
write_task-AllBounded task old rows found most good all =
    modify-AllBounded (write_task task) task.id rows (λ a. refl)
      (λ row held bounded.
        let same : old ≡ row = Option.some-injective old row (sym found ∙ held) in
        let old_bounded : Bounded old = subst Bounded (sym same) bounded in
        let task_bounded : Bounded task = good old_bounded in
        let most_row : row.max_attempts ≡ task.max_attempts =
          ap (λ t. t.max_attempts) (sym same) ∙ most in
        (rw most_row task_bounded.0, rw most_row task_bounded.1))
      all

pub claim_row-AllBounded :
    (now worker k : ℕ) (rows : List Task) (row : Task)
    → select task_key k rows ≡ some row
    → row.status ≡ TaskStatus.queued
    → AllBounded rows
    → AllBounded (modify task_key k (claim_row now worker) rows)
claim_row-AllBounded now worker k rows row found queued all =
    modify-AllBounded (claim_row now worker) k rows (λ a. refl)
      (λ old held bounded.
        let same : row ≡ old = Option.some-injective row old (sym found ∙ held) in
        let queued_old : old.status ≡ TaskStatus.queued = ap (λ t. t.status) (sym same) ∙ queued in
        let fewer : old.attempt_count < old.max_attempts = bounded.1 (rw queued_old refl) in
        (omega (arith, fewer), λ no_wait. absurd (cc)))
      all

pub move_row-AllBounded :
    (now k : ℕ) (to : TaskStatus) (rows : List Task) (row : Task)
    → select task_key k rows ≡ some row
    → waiting row.status ≡ true
    → AllBounded rows
    → AllBounded (modify task_key k (move_row now to) rows)
move_row-AllBounded now k to rows row found waits all =
    modify-AllBounded (move_row now to) k rows (λ a. refl)
      (λ old held bounded.
        let same : row ≡ old = Option.some-injective row old (sym found ∙ held) in
        let waits_old : waiting old.status ≡ true =
          subst (λ t. waiting t.status ≡ true) same waits in
        (bounded.0, λ _. bounded.1 waits_old))
      all

pub append-AllBounded :
    (rows : List Task) (task : Task)
    → Bounded task
    → AllBounded rows
    → AllBounded (rows ++ task ∷ [])
append-AllBounded rows task bounded all k row found = elim (Option-cases (select task_key k rows)) [
  | inr (old, held) ↦
      let same : old ≡ row =
        Option.some-injective old row
          (sym (select-append_some task_key k rows (task ∷ []) held) ∙ found) in
      subst Bounded same (all k old held)
  | inl gone ↦
      let law = select-append task_key k rows task gone in
      elim (Bool-cases (task_key task == k)) [
        | inl named ↦
            let same : task ≡ row =
              Option.some-injective task row (sym (rw named at law) ∙ found) in
            subst Bounded same bounded
        | inr other ↦ let empty : none ≡ some row = sym (rw other at law) ∙ found in absurd (cc)
      ]
]
