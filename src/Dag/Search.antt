-- ===== src/Dag/Search.antt =====
-- What the depth-first search keeps: the visited nodes that left the stack lie on no cycle.
use aura_automated_user_rag.Base.{
  ℕ, zero, suc, ◌≤◌, ◌<◌, Bool, true, false, List, [], ◌∷◌, ◌==◌, if◌then◌else◌, ◌≡◌, ◌⊎◌, inl, inr,
  refl, nat_eq, elem, arith, Bool-cases, subst, sym, ◌∙◌, Result, ok,
}
use aura_automated_user_rag.Dag.{Graph, neighbors, Dfs, remove, scan, enter, is_cyclic}
use aura_automated_user_rag.Dag.Paths.{Plus, one, more, Plus-snoc, linked, elem-remove}

-- The nodes of `nodes` that were not visited.
unfoldable pub unseen : List ℕ → List ℕ → ℕ
unseen [] visited = 0
unseen (v ∷ nodes) visited =
    let rest = unseen nodes visited in if elem v visited then rest else suc rest

pub unseen_mono :
    (nodes a b : List ℕ)
    → ((v : ℕ) → elem v a ≡ true → elem v b ≡ true)
    → unseen nodes b ≤ unseen nodes a
unfolding unseen
unseen_mono [] a b h = omega arith
unseen_mono (v ∷ nodes) a b h = ground (arith, unseen_mono nodes a b h, h v)

unseen-cons_le :
    (nodes visited : List ℕ) (n : ℕ) → unseen nodes (n ∷ visited) ≤ unseen nodes visited
unseen-cons_le nodes visited n = unseen_mono nodes visited (n ∷ visited) (λ v e. ground arith)

pub unseen-cons :
    (nodes visited : List ℕ) (n : ℕ)
    → elem n nodes ≡ true
    → elem n visited ≡ false
    → unseen nodes (n ∷ visited) < unseen nodes visited
unfolding unseen
unseen-cons [] visited n e f = cc
unseen-cons (v ∷ nodes) visited n e f =
    ground (arith, unseen-cons nodes visited n, unseen-cons_le nodes visited n)

-- A visited node that left the stack.
abbrev pub Done : Dfs → ℕ → Type 0
Done s v = (elem v s.visited ≡ true) × (elem v s.rec_stack ≡ false)

module _ (graph : Graph) where
  pub record Inv (s : Dfs) : Type 0 where
    pub stacked : (v : ℕ) → elem v s.rec_stack ≡ true → elem v s.visited ≡ true
    pub closed : (u v : ℕ) → Done s u → linked graph u v ≡ true → Done s v
    pub acyclic : (u : ℕ) → Done s u → ¬ Plus (linked graph) u u

  -- A search that found no cycle keeps the invariant, the stack and what was visited.
  pub record Kept (s t : Dfs) : Type 0 where
    pub inv : Inv t
    pub grows : (v : ℕ) → elem v s.visited ≡ true → elem v t.visited ≡ true
    pub stack : (v : ℕ) → elem v t.rec_stack ≡ elem v s.rec_stack

  -- The outcome of searching from the nodes `ns`.
  abbrev pub Post : Dfs → List ℕ → Bool × Dfs → Type 0
  Post s ns (true, t) = (v : ℕ) × Plus (linked graph) v v
  Post s ns (false, t) = Kept s t × ((v : ℕ) → elem v ns ≡ true → Done t v)

  Plus-Done : {s : Dfs} → Inv s → {u v : ℕ} → Done s u → Plus (linked graph) u v → Done s v
  Plus-Done inv d (one {u} {v} e) = inv.closed u v d e
  Plus-Done inv d (more {u} {v} e p) = Plus-Done inv (inv.closed u v d e) p

  -- What the successors of `u` are, all that is reachable from `u` is.
  Plus-Done_all :
      {s : Dfs} {u v : ℕ}
      → Inv s
      → ((w : ℕ) → linked graph u w ≡ true → Done s w)
      → Plus (linked graph) u v
      → Done s v
  Plus-Done_all inv all (one {u} {v} e) = all v e
  Plus-Done_all inv all (more {u} {v} e p) = Plus-Done inv (all v e) p

  enter-Inv : (n : ℕ) (s : Dfs) → Inv s → elem n s.visited ≡ false → Inv (enter n s)
  enter-Inv n s inv fresh = record {
    stacked = λ v h. ground (arith, inv.stacked v);
    closed = λ u v d e. ground (arith, inv.closed u v);
    acyclic = λ u d. inv.acyclic u (ground arith);
  }

  -- Leaving `n`, whose successors are all done.
  leave-Kept :
      (n : ℕ) (s t : Dfs)
      → Inv s
      → elem n s.visited ≡ false
      → Kept (enter n s) t
      → ((v : ℕ) → linked graph n v ≡ true → Done t v)
      → Kept s (record t { rec_stack = remove n t.rec_stack })
        × Done (record t { rec_stack = remove n t.rec_stack }) n
  leave-Kept n s t inv fresh kept all =
      let on_stack : elem n t.rec_stack ≡ true = ground (arith, kept.stack n) in
      let not_before : elem n s.rec_stack ≡ false = ground (arith, inv.stacked n) in
      (
        record {
          inv = record {
            stacked = λ v e. ground (arith, elem-remove n v t.rec_stack, kept.inv.stacked v);
            closed = λ u v d e. ground (
              arith,
              elem-remove n u t.rec_stack,
              elem-remove n v t.rec_stack,
              kept.inv.closed u v,
              all v,
            );
            acyclic = λ u d p. elim (Bool-cases (u == n)) [
              | inl same ↦
                  let e : u ≡ n = ground arith in
                  let loop : Plus (linked graph) n n = subst (λ x. Plus (linked graph) x x) e p in
                  let off_stack : elem n t.rec_stack ≡ false =
                    (Plus-Done_all kept.inv all loop).1 in
                  cc
              | inr other ↦ kept.inv.acyclic u (ground (arith, elem-remove n u t.rec_stack)) p
            ];
          };
          grows = λ v e. ground (arith, kept.grows v);
          stack = λ v. ground (arith, elem-remove n v t.rec_stack, kept.stack v);
        },
        (ground (arith, kept.grows n), ground (arith, elem-remove n n t.rec_stack)),
      )

  -- A call of `is_cyclic` with fuel for the unvisited nodes returns, with such an outcome, where the
  -- nodes of the stack lead to its node.
  abbrev pub Visits : List ℕ → (ℕ → Dfs → Result (Bool × Dfs)) → ℕ → Type 0
  Visits nodes visit fuel =
      (n : ℕ) (s : Dfs)
      → Inv s
      → elem n s.visited ≡ false
      → elem n nodes ≡ true
      → ((v : ℕ) → elem v s.rec_stack ≡ true → Plus (linked graph) v n)
      → unseen nodes s.visited ≤ fuel
      → (r : Bool × Dfs) × (visit n s ≡ ok r) × Post s (n ∷ []) r

  Kept-refl : {s : Dfs} → Inv s → Kept s s
  Kept-refl inv = record { inv = inv; grows = λ v e. e; stack = λ v. refl }

  Post-cons :
      (s t : Dfs) (n : ℕ) (ns : List ℕ) (r : Bool × Dfs)
      → Kept s t
      → Done t n
      → Post t ns r
      → Post s (n ∷ ns) r
  Post-cons s t n ns (true, u) kept d post = post
  Post-cons s t n ns (false, u) kept d (kept', all) = (
    record {
      inv = kept'.inv;
      grows = λ v e. kept'.grows v (kept.grows v e);
      stack = λ v. kept'.stack v ∙ kept.stack v;
    },
    λ v e. ground (arith, all v, kept'.grows v, kept'.stack v),
  )

  -- `x` is the top of the stack, and `ns` are successors of `x`.
  scan_lem :
      (nodes : List ℕ) (visit : ℕ → Dfs → Result (Bool × Dfs)) (fuel : ℕ)
      → Visits nodes visit fuel
      → (x : ℕ) (ns : List ℕ) (s : Dfs) → Inv s
      → ((v : ℕ) → elem v ns ≡ true → (linked graph x v ≡ true) × (elem v nodes ≡ true))
      → ((v : ℕ) → elem v s.rec_stack ≡ true → (v ≡ x) ⊎ Plus (linked graph) v x)
      → unseen nodes s.visited ≤ fuel
      → (r : Bool × Dfs) × (scan visit ns s ≡ ok r) × Post s ns r
  unfolding scan
  scan_lem nodes visit fuel visits x [] s inv sub top enough =
      ((false, s), refl, (Kept-refl inv, λ v e. cc))
  scan_lem nodes visit fuel visits x (n ∷ ns) s inv sub top enough =
      elim (Bool-cases (elem n s.visited)) [
        | inl old ↦ elim (Bool-cases (elem n s.rec_stack)) [
          | inl on ↦ ((true, s), rw (old, on, scan), (n, closes (top n on) (sub n here_n).0))
          | inr off ↦
              let (r, e, post) =
                scan_lem nodes visit fuel visits x ns s inv (λ v e. sub v (ground arith)) top
                  enough in
              (r, rw (old, off, scan) e, Post-cons s s n ns r (Kept-refl inv) (old, off) post)
        ]
        | inr new ↦
            let to_n =
              λ (v : ℕ) (e : elem v s.rec_stack ≡ true). extend (top v e) (sub n here_n).0 in
            let (r, e, post) = visits n s inv new (sub n here_n).1 to_n enough in
            next (scan_lem nodes visit fuel visits x ns) r e post new
      ]
    where
      here_n : elem n (n ∷ ns) ≡ true
      here_n = ground arith

      extend :
          {v : ℕ}
          → (v ≡ x) ⊎ Plus (linked graph) v x
          → linked graph x n ≡ true
          → Plus (linked graph) v n
      extend (inl same) e = subst (λ y. Plus (linked graph) y n) (sym same) (one e)
      extend (inr p) e = Plus-snoc p e

      closes : (n ≡ x) ⊎ Plus (linked graph) n x → linked graph x n ≡ true → Plus (linked graph) n n
      closes = extend

      next :
          ((t : Dfs)
            → Inv t
            → ((v : ℕ) → elem v ns ≡ true → (linked graph x v ≡ true) × (elem v nodes ≡ true))
            → ((v : ℕ) → elem v t.rec_stack ≡ true → (v ≡ x) ⊎ Plus (linked graph) v x)
            → unseen nodes t.visited ≤ fuel
            → (r : Bool × Dfs) × (scan visit ns t ≡ ok r) × Post t ns r)
          → (r : Bool × Dfs) → visit n s ≡ ok r
          → Post s (n ∷ []) r
          → elem n s.visited ≡ false
          → (q : Bool × Dfs) × (scan visit (n ∷ ns) s ≡ ok q) × Post s (n ∷ ns) q
      next again (true, t) e post new = ((true, t), rw (new, scan, e), post)
      next again (false, t) e (kept, all) new =
          let (q, e', post) =
            again t kept.inv (λ v h. sub v (ground arith))
              (λ v h. top v (ground (arith, kept.stack v)))
              (omega (arith, unseen_mono nodes s.visited t.visited kept.grows)) in
          (q, rw (new, scan, e) e', Post-cons s t n ns q kept (all n (ground arith)) post)

  -- Fuel for the nodes that are not visited is enough for `is_cyclic`.
  pub is_cyclic_lem :
      (nodes : List ℕ)
      → ((u v : ℕ) → linked graph u v ≡ true → elem v nodes ≡ true)
      → (fuel : ℕ) → Visits nodes (is_cyclic graph fuel) fuel
  unfolding is_cyclic
  is_cyclic_lem nodes inside zero n s inv new known to_n enough =
      absurd (omega (arith, unseen-cons nodes s.visited n known new))
  is_cyclic_lem nodes inside (suc fuel) n s inv new known to_n enough =
      let (r, e, post) =
        scan_lem nodes (is_cyclic graph fuel) fuel (is_cyclic_lem nodes inside fuel) n
          (neighbors graph n) (enter n s) (enter-Inv n s inv new) (λ v h. (h, inside n v h)) top
          (omega (arith, unseen-cons nodes s.visited n known new)) in
      leave r e post
    where
      top : (v : ℕ) → elem v (n ∷ s.rec_stack) ≡ true → (v ≡ n) ⊎ Plus (linked graph) v n
      top v h = elim (Bool-cases (v == n)) [
        | inl same ↦ inl (ground arith)
        | inr other ↦ inr (to_n v (ground arith))
      ]

      leave :
          (r : Bool × Dfs)
          → scan (is_cyclic graph fuel) (neighbors graph n) (enter n s) ≡ ok r
          → Post (enter n s) (neighbors graph n) r
          → (q : Bool × Dfs) × (is_cyclic graph (suc fuel) n s ≡ ok q) × Post s (n ∷ []) q
      leave (true, t) e post = ((true, t), rw (is_cyclic, e), post)
      leave (false, t) e (kept, all) =
          let (kept', d) = leave-Kept n s t inv new kept all in
          let u : Dfs = record t { rec_stack = remove n t.rec_stack } in
          (
            (false, u),
            rw (is_cyclic, e),
            (kept', λ v h. let same : n ≡ v = ground arith in subst (λ y. Done u y) same d),
          )
