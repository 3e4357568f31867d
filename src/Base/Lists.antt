-- ===== src/Base/Lists.antt =====
-- Lists measured by native numbers, predicates over lists, and a stable sort.
use Prim.Native.Nat.{ℕ, zero, suc, ◌+◌}
use mathlib.Core.Path.{◌≡◌, refl, subst}
use mathlib.Core.Logic.{◌⊎◌, inl, inr}
use mathlib.Core.Bool.{Bool, true}
use mathlib.Core.List.{List, [], ◌∷◌, ◌++◌}
use mathlib.Core.Option.{Option, none, some}
use native.Mathlib.Omega.{arith}
use aura_automated_user_rag.Base.Tests.{if◌then◌else◌, Bool-cases}

module _ {ℓ} {A : Type ℓ} where
  abbrev pub length : List A → ℕ
  length [] = 0
  length (x ∷ xs) = suc (length xs)

  abbrev pub take : ℕ → List A → List A
  take zero xs = []
  take (suc n) [] = []
  take (suc n) (x ∷ xs) = x ∷ take n xs

  -- `[x for x in xs if p(x)]`
  abbrev pub filter : (A → Bool) → List A → List A
  filter p [] = []
  filter p (x ∷ xs) = let rest = filter p xs in if p x then x ∷ rest else rest

  -- `next((x for x in xs if p(x)), None)`
  abbrev pub find : (A → Bool) → List A → Option A
  find p [] = none
  find p (x ∷ xs) = if p x then some x else find p xs

  abbrev pub All {κ} : (A → Type κ) → List A → Type κ
  All P [] = Unit
  All P (x ∷ xs) = P x × All P xs

  pub data In (a : A) : List A → Type ℓ where
    here : {x : A} {xs : List A} → a ≡ x → In a (x ∷ xs)
    there : {x : A} {xs : List A} → In a xs → In a (x ∷ xs)

module _ {ℓ} {A : Type ℓ} where
  pub not-In-nil : {a : A} → ¬ In a []
  not-In-nil m = elim m [ ]

  pub In-cons : {a x : A} {xs : List A} → In a (x ∷ xs) → (a ≡ x) ⊎ In a xs
  In-cons (here e) = inl e
  In-cons (there m) = inr m

  pub In-append_left : {a : A} (xs ys : List A) → In a xs → In a (xs ++ ys)
  In-append_left [] ys m = elim m [ ]
  In-append_left (x ∷ xs) ys (here e) = here e
  In-append_left (x ∷ xs) ys (there m) = there (In-append_left xs ys m)

  pub In-append_right : {a : A} (xs ys : List A) → In a ys → In a (xs ++ ys)
  In-append_right [] ys m = m
  In-append_right (x ∷ xs) ys m = there (In-append_right xs ys m)

  pub In-append : {a : A} (xs ys : List A) → In a (xs ++ ys) → In a xs ⊎ In a ys
  In-append [] ys m = inr m
  In-append (x ∷ xs) ys (here e) = inl (here e)
  In-append (x ∷ xs) ys (there m) = elim (In-append xs ys m) [
    | inl left ↦ inl (there left)
    | inr right ↦ inr right
  ]

  pub In-filter : {a : A} (p : A → Bool) (xs : List A) → In a xs → p a ≡ true → In a (filter p xs)
  In-filter p [] m h = elim m [ ]
  In-filter {a} p (x ∷ xs) (here e) h =
      let e' : p x ≡ true = subst (λ y. p y ≡ true) e h in rw e' (here e)
  In-filter {a} p (x ∷ xs) (there m) h = elim (Bool-cases (p x)) [
    | inl kept ↦ rw kept (there (In-filter p xs m h))
    | inr out ↦ rw out (In-filter p xs m h)
  ]

  pub filter-append :
      (p : A → Bool) (xs ys : List A) → filter p (xs ++ ys) ≡ filter p xs ++ filter p ys
  filter-append p [] ys = refl
  filter-append p (x ∷ xs) ys = elim (Bool-cases (p x)) [
    | inl kept ↦ rw (kept, filter-append p xs ys) refl
    | inr out ↦ rw (out, filter-append p xs ys) refl
  ]

  pub append-eq-nil : (xs ys : List A) → xs ++ ys ≡ [] → (xs ≡ []) × (ys ≡ [])
  append-eq-nil [] ys h = (refl, h)
  append-eq-nil (x ∷ xs) ys h = absurd (cc)

  pub List-cases : (xs : List A) → (xs ≡ []) ⊎ ((x : A) × (rest : List A) × (xs ≡ x ∷ rest))
  List-cases [] = inl refl
  List-cases (x ∷ xs) = inr (x, xs, refl)

  pub length-append : (xs ys : List A) → length (xs ++ ys) ≡ length xs + length ys
  length-append [] ys = omega arith
  length-append (x ∷ xs) ys = omega (arith, length-append xs ys)

  pub All-append {κ} : (P : A → Type κ) (xs ys : List A) → All P xs → All P ys → All P (xs ++ ys)
  All-append P [] ys hx hy = hy
  All-append P (x ∷ xs) ys hx hy = (hx.0, All-append P xs ys hx.1 hy)

-- Python's `sorted`, which is stable: `lt x y` is the test `key(x) < key(y)`.
module _ {ℓ} {A : Type ℓ} (lt : A → A → Bool) where
  abbrev pub insert_sorted : A → List A → List A
  insert_sorted x [] = x ∷ []
  insert_sorted x (y ∷ ys) =
      let rest = insert_sorted x ys in if lt y x then y ∷ rest else x ∷ y ∷ ys

  unfoldable pub sorted : List A → List A
  sorted [] = []
  sorted (x ∷ xs) = insert_sorted x (sorted xs)

  In-insert_sorted : (x : A) (ys : List A) {a : A} → In a (insert_sorted x ys) → In a (x ∷ ys)
  In-insert_sorted x [] m = m
  In-insert_sorted x (y ∷ ys) {a} m = elim (Bool-cases (lt y x)) [
    | inl before ↦
        let m' : In a (y ∷ insert_sorted x ys) = rw before at m in
        elim (In-cons m') [
          | inl e ↦ there (here e)
          | inr later ↦ elim (In-cons (In-insert_sorted x ys later)) [
            | inl e ↦ here e
            | inr old ↦ there (there old)
          ]
        ]
    | inr found ↦ rw found at m
  ]

  In-insert_sorted_back : (x : A) (ys : List A) {a : A} → In a (x ∷ ys) → In a (insert_sorted x ys)
  In-insert_sorted_back x [] m = m
  In-insert_sorted_back x (y ∷ ys) {a} m = elim (Bool-cases (lt y x)) [
    | inr found ↦ rw found m
    | inl before ↦ rw before (elim (In-cons m) [
      | inl e ↦ there (In-insert_sorted_back x ys (here e))
      | inr rest ↦ elim (In-cons rest) [
        | inl e ↦ here e
        | inr later ↦ there (In-insert_sorted_back x ys (there later))
      ]
    ])
  ]

  -- Sorting keeps every element.
  pub In-sorted_back : (xs : List A) {a : A} → In a xs → In a (sorted xs)
  unfolding sorted
  In-sorted_back [] m = m
  In-sorted_back (x ∷ xs) m = elim (In-cons m) [
    | inl e ↦ In-insert_sorted_back x (sorted xs) (here e)
    | inr rest ↦ In-insert_sorted_back x (sorted xs) (there (In-sorted_back xs rest))
  ]

  -- A sorted list has no elements of its own.
  pub In-sorted : (xs : List A) {a : A} → In a (sorted xs) → In a xs
  unfolding sorted
  In-sorted [] m = m
  In-sorted (x ∷ xs) m = elim (In-cons (In-insert_sorted x (sorted xs) m)) [
    | inl e ↦ here e
    | inr later ↦ there (In-sorted xs later)
  ]
