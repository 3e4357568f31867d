-- ===== src/Base/Walks.antt =====
-- The histories of a state machine that is given by its table of successors.
use mathlib.Core.Path.{◌≡◌, sym}
use mathlib.Core.Logic.{◌⊎◌, inl, inr}
use mathlib.Core.Bool.{Bool, true, false}
use mathlib.Core.List.{List, [], ◌∷◌}
use aura_automated_user_rag.Base.Equality.{Eq, elem}
use aura_automated_user_rag.Base.Lists.{In, here, there}

module _ {S : Type 0} ⦃e : Eq S⦄ where
  -- `Walk next s path t`: the statuses of `path` lead from `s` to `t`, each allowed by the last.
  pub data Walk (next : S → List S) : S → List S → S → Type 0 where
    stay : {s : S} → Walk next s [] s
    move :
        {s t u : S} {path : List S}
        → elem t (next s) ≡ true
        → Walk next t path u
        → Walk next s (t ∷ path) u

  -- A set of statuses that only `gate` leads out of.
  abbrev pub Guards : (S → List S) → S → (S → Bool) → Type 0
  Guards next gate inside =
      (s t : S) → inside s ≡ true → elem t (next s) ≡ true → (inside t ≡ true) ⊎ (t ≡ gate)

  -- A walk that leaves such a set visits the gate.
  pub Walk-gate :
      (next : S → List S) (gate : S) (inside : S → Bool)
      → Guards next gate inside
      → {s : S} {path : List S} {t : S} → Walk next s path t
      → inside s ≡ true
      → inside t ≡ false
      → In gate path
  Walk-gate next gate inside guards stay h out = cc
  Walk-gate next gate inside guards (move {s} {t} allowed w) h out = elim (guards s t h allowed) [
    | inl still ↦ there (Walk-gate next gate inside guards w still out)
    | inr found ↦ here (sym found)
  ]
