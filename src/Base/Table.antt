-- ===== src/Base/Table.antt =====
-- A table of the database: rows under a primary key. `select` is by key, an update changes the
-- row with the key where there is one, and an insert adds a row.
use Prim.Native.Nat.{ℕ}
use mathlib.Core.Path.{◌≡◌, refl, subst}
use mathlib.Core.Logic.{inl, inr}
use mathlib.Core.Bool.{true}
use mathlib.Core.Option
use mathlib.Core.Option.{Option, none, some}
use mathlib.Core.List.{List, [], ◌∷◌, ◌++◌}
use native.Mathlib.Omega.{arith}
use aura_automated_user_rag.Base.Tests.{◌==◌, if◌then◌else◌, Bool-cases, ==_iff}
use aura_automated_user_rag.Base.Lists.{All}

module _ {ℓ} {A : Type ℓ} (key : A → ℕ) where
  unfoldable pub select : ℕ → List A → Option A
  select k [] = none
  select k (x ∷ xs) = if key x == k then some x else select k xs

  unfoldable pub modify : ℕ → (A → A) → List A → List A
  modify k f [] = []
  modify k f (x ∷ xs) = (if key x == k then f x else x) ∷ modify k f xs

  pub key-select : (k : ℕ) (xs : List A) {a : A} → select k xs ≡ some a → key a ≡ k
  unfolding select
  key-select k [] h = cc
  key-select k (x ∷ xs) {a} h = ground (arith, key-select k xs {a = a})

  pub select-modify :
      (f : A → A) (keeps : (a : A) → key (f a) ≡ key a) (k j : ℕ) (xs : List A)
      → select j (modify k f xs) ≡ (if k == j then Option.map f (select j xs) else select j xs)
  unfolding select modify
  select-modify f keeps k j [] = ground arith
  select-modify f keeps k j (x ∷ xs) = ground (arith, select-modify f keeps k j xs, keeps x)

  pub select-append :
      (k : ℕ) (xs : List A) (a : A)
      → select k xs ≡ none
      → select k (xs ++ a ∷ []) ≡ (if key a == k then some a else none)
  unfolding select
  select-append k [] a h = refl
  select-append k (x ∷ xs) a h = ground (arith, select-append k xs a)

  pub select-append_some :
      (k : ℕ) (xs ys : List A) {a : A} → select k xs ≡ some a → select k (xs ++ ys) ≡ some a
  unfolding select
  select-append_some k [] ys h = cc
  select-append_some k (x ∷ xs) ys {a} h = ground (arith, select-append_some k xs ys {a = a})

  pub All-select {κ} :
      (P : A → Type κ) (k : ℕ) (xs : List A) {a : A} → All P xs → select k xs ≡ some a → P a
  unfolding select
  All-select P k [] all h = cc
  All-select P k (x ∷ xs) {a} all h = elim (Bool-cases (key x == k)) [
    | inl same ↦ let e : x ≡ a = ground arith in subst P e all.0
    | inr other ↦ All-select P k xs all.1 (ground arith)
  ]

  pub All-modify {κ} :
      (P : A → Type κ) (k : ℕ) (f : A → A) (xs : List A)
      → ((a : A) → key a ≡ k → P a → P (f a))
      → All P xs
      → All P (modify k f xs)
  unfolding modify
  All-modify P k f [] keep all = tt
  All-modify P k f (x ∷ xs) keep all = elim (Bool-cases (key x == k)) [
    | inl same ↦ (rw same (keep x ((==_iff _ _).0 same) all.0), All-modify P k f xs keep all.1)
    | inr other ↦ (rw other all.0, All-modify P k f xs keep all.1)
  ]

  -- An update of the row that was inserted last, under a key that no other row has.
  pub modify-append :
      (k : ℕ) (f : A → A) (xs : List A) (a : A)
      → select k xs ≡ none
      → (key a == k) ≡ true
      → modify k f (xs ++ a ∷ []) ≡ xs ++ f a ∷ []
  unfolding select modify
  modify-append k f [] a free same = rw same refl
  modify-append k f (x ∷ xs) a free same = elim (Bool-cases (key x == k)) [
    | inl taken ↦ let bad : some x ≡ none = rw taken at free in absurd (cc)
    | inr other ↦ rw (other, modify-append k f xs a (rw other at free) same) refl
  ]
