-- ===== src/Dag/Correct.antt =====
-- The validation decides whether a new dependency leaves the tasks free of cycles.
use aura_automated_user_rag.Base.{
  ℕ, ◌≤◌, Bool, true, false, List, [], ◌∷◌, map, ◌==◌, ◌≡◌, ◌⊎◌, inl, inr, refl, subst, ◌∙◌, nat_eq,
  elem, arith, Bool-cases, Result, ok, raise, dag_cycle_error,
}
use aura_automated_user_rag.Domain.Tasks.{TaskDependency}
use aura_automated_user_rag.Dag.{
  Graph, neighbors, build, Dfs, is_cyclic, search, duplicates, full_graph,
}
use aura_automated_user_rag.Dag.Paths.{
  edge, Plus, one, more, IsAcyclic, linked, linked-append_edge, linked-build, linked-keys,
}
use aura_automated_user_rag.Dag.Search.{unseen, unseen_mono, Done, Inv, Post, is_cyclic_lem}

module _ (graph : Graph) where
  Plus-start : {u v : ℕ} → Plus (linked graph) u v → (w : ℕ) × (linked graph u w ≡ true)
  Plus-start (one {u} {v} e) = (v, e)
  Plus-start (more {u} {v} e p) = (v, e)

  -- All that was visited, and all of `ns`, is done.
  abbrev pub AllDone : List ℕ → Dfs → Type 0
  AllDone ns s =
      (t : Dfs) × Inv graph t
      × ((v : ℕ) → elem v s.visited ≡ true → Done t v)
      × ((v : ℕ) → elem v ns ≡ true → Done t v)

  -- What the loop over the keys `ns` found, from the state `s`.
  abbrev pub Found : List ℕ → Dfs → Result (Unit {0}) → Type 0
  Found ns s r =
      ((r ≡ ok tt) × AllDone ns s)
      ⊎ ((r ≡ raise dag_cycle_error) × ((v : ℕ) × Plus (linked graph) v v))

  AllDone-cons :
      (n : ℕ) (ns : List ℕ) (s t : Dfs)
      → ((v : ℕ) → elem v s.visited ≡ true → elem v t.visited ≡ true)
      → elem n t.visited ≡ true
      → AllDone ns t
      → AllDone (n ∷ ns) s
  AllDone-cons n ns s t grows old (u, inv, visited, all) = (
    u,
    inv,
    λ v e. visited v (grows v e),
    λ v e. elim (Bool-cases (v == n)) [
      | inl same ↦ let e' : n ≡ v = ground arith in subst (Done u) e' (visited n old)
      | inr other ↦ all v (ground arith)
    ],
  )

  Found-cons :
      (n : ℕ) (ns : List ℕ) (s t : Dfs) (r q : Result (Unit {0}))
      → ((v : ℕ) → elem v s.visited ≡ true → elem v t.visited ≡ true)
      → elem n t.visited ≡ true
      → q ≡ r
      → Found ns t r
      → Found (n ∷ ns) s q
  Found-cons n ns s t r q grows old same (inl (e, all)) =
      inl (same ∙ e, AllDone-cons n ns s t grows old all)
  Found-cons n ns s t r q grows old same (inr (e, cycle)) = inr (same ∙ e, cycle)

  pub search_lem :
      (nodes : List ℕ)
      → ((u v : ℕ) → linked graph u v ≡ true → elem v nodes ≡ true)
      → (depth : ℕ) (ns : List ℕ) (s : Dfs) → Inv graph s
      → ((v : ℕ) → elem v s.rec_stack ≡ false)
      → ((v : ℕ) → elem v ns ≡ true → elem v nodes ≡ true)
      → unseen nodes s.visited ≤ depth
      → Found ns s (search graph depth ns s)
  unfolding search
  search_lem nodes inside depth [] s inv empty known enough =
      inl (refl, (s, inv, λ v e. (e, empty v), λ v e. cc))
  search_lem nodes inside depth (n ∷ ns) s inv empty known enough =
      elim (Bool-cases (elem n s.visited)) [
        | inl old ↦
            Found-cons n ns s s (search graph depth ns s) (search graph depth (n ∷ ns) s) (λ v e. e)
              old (rw (old, search))
              (search_lem nodes inside depth ns s inv empty (λ v e. known v (ground arith)) enough)
        | inr new ↦
            let (r, e, post) =
              is_cyclic_lem graph nodes inside depth n s inv new (known n (ground arith))
                (λ v e. absurd (ground (arith, empty v))) enough in
            next (search_lem nodes inside depth ns) r e post new
      ]
    where
      next :
          ((t : Dfs)
            → Inv graph t
            → ((v : ℕ) → elem v t.rec_stack ≡ false)
            → ((v : ℕ) → elem v ns ≡ true → elem v nodes ≡ true)
            → unseen nodes t.visited ≤ depth
            → Found ns t (search graph depth ns t))
          → (r : Bool × Dfs) → is_cyclic graph depth n s ≡ ok r
          → Post graph s (n ∷ []) r
          → elem n s.visited ≡ false
          → Found (n ∷ ns) s (search graph depth (n ∷ ns) s)
      next again (true, t) e post new = inr (rw (new, search, e), post)
      next again (false, t) e (kept, all) new =
          Found-cons n ns s t (search graph depth ns t) (search graph depth (n ∷ ns) s) kept.grows
            (all n (ground arith)).0 (rw (new, search, e))
            (again t kept.inv (λ v. kept.stack v ∙ empty v) (λ v h. known v (ground arith))
              (omega (arith, unseen_mono nodes s.visited t.visited kept.grows)))

  -- With every key done there is no cycle.
  pub AllDone-IsAcyclic :
      (s : Dfs) → AllDone (map (λ entry. entry.0) graph) s → IsAcyclic (linked graph)
  AllDone-IsAcyclic s (t, inv, visited, all) v p =
      let (w, e) = Plus-start p in inv.acyclic v (all v (linked-keys graph v w e)) p

pub duplicates-edge :
    (new_dep : TaskDependency) (deps : List TaskDependency)
    → duplicates new_dep deps ≡ edge deps new_dep.depends_on_task_id new_dep.task_id
unfolding duplicates
duplicates-edge new_dep [] = refl
duplicates-edge new_dep (d ∷ deps) = ground (arith, duplicates-edge new_dep deps)

pub linked-full_graph :
    (d : TaskDependency) (deps : List TaskDependency) (u v : ℕ)
    → linked (full_graph d deps) u v ≡ edge (d ∷ deps) u v
unfolding neighbors
linked-full_graph d deps u v = ground (
  arith,
  linked-append_edge d.depends_on_task_id d.task_id u v (build deps []),
  linked-build deps [] u v,
)
