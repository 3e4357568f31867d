-- ===== src/Dag/Validation.antt =====
-- The validation decides whether a new dependency leaves the tasks free of cycles.
use aura_automated_user_rag.Base.{
  ℕ, suc, ◌*◌, ◌≤◌, true, false, ◌||◌, List, [], ◌∷◌, map, ◌==◌, ◌≡◌, ◌≢◌, ◌↔◌, ◌⊎◌, inl, inr, refl,
  sym, ◌∙◌, nat_eq, elem, arith, length, Result, ok, raise, Exception, dag_cycle_error,
  dag_duplicate_error, dag_self_dependency_error,
}
use aura_automated_user_rag.Domain.Tasks.{TaskDependency}
use aura_automated_user_rag.Dag.{
  Graph, append_edge, build, Dfs, search, full_graph, validate_new_dependency,
}
use aura_automated_user_rag.Dag.Paths.{edge, Plus, Plus-mono, IsAcyclic, linked}
use aura_automated_user_rag.Dag.Search.{unseen, Inv}
use aura_automated_user_rag.Dag.Correct.{
  Found, AllDone-IsAcyclic, search_lem, duplicates-edge, linked-full_graph,
}

-- The tasks that the dependencies name.
abbrev ends : List TaskDependency → List ℕ
ends [] = []
ends (d ∷ deps) = d.task_id ∷ d.depends_on_task_id ∷ ends deps

abbrev keys : Graph → List ℕ
keys graph = map (λ entry. entry.0) graph

length-ends : (deps : List TaskDependency) → length (ends deps) ≡ 2 * length deps
length-ends [] = omega arith
length-ends (d ∷ deps) = omega (arith, length-ends deps)

edge-ends :
    (deps : List TaskDependency) (u v : ℕ) → edge deps u v ≡ true → elem v (ends deps) ≡ true
edge-ends [] u v h = cc
edge-ends (d ∷ deps) u v h = ground (arith, edge-ends deps u v)

keys-append_edge :
    (k w v : ℕ) (graph : Graph)
    → elem v (keys (append_edge k w graph)) ≡ ((v == k) || elem v (keys graph))
unfolding append_edge
keys-append_edge k w v [] = ground arith
keys-append_edge k w v ((j, ns) ∷ graph) = ground (arith, keys-append_edge k w v graph)

keys-build :
    (deps : List TaskDependency) (graph : Graph) (v : ℕ)
    → elem v (keys (build deps graph)) ≡ true
    → (elem v (ends deps) ≡ true) ⊎ (elem v (keys graph) ≡ true)
unfolding build
keys-build [] graph v h = inr h
keys-build (d ∷ deps) graph v h = ground (
  arith,
  keys-build deps (append_edge d.depends_on_task_id d.task_id graph) v,
  keys-append_edge d.depends_on_task_id d.task_id v graph,
)

keys-full_graph :
    (d : TaskDependency) (deps : List TaskDependency) (v : ℕ)
    → elem v (keys (full_graph d deps)) ≡ true
    → elem v (ends (d ∷ deps)) ≡ true
keys-full_graph d deps v h =
    ground (
      arith,
      keys-append_edge d.depends_on_task_id d.task_id v (build deps []),
      keys-build deps [] v,
    )

unseen-le-length : (nodes visited : List ℕ) → unseen nodes visited ≤ length nodes
unfolding unseen
unseen-le-length [] visited = omega arith
unseen-le-length (v ∷ nodes) visited = ground (arith, unseen-le-length nodes visited)

module _ (depth : ℕ) (new_dep : TaskDependency) (deps : List TaskDependency) where
  abbrev graph : Graph
  graph = full_graph new_dep deps

  abbrev start : Dfs
  start = record { visited = []; rec_stack = [] }

  start-Inv : Inv graph start
  start-Inv = record {
    stacked = λ v e. cc;
    closed = λ u v (d, _) e. cc;
    acyclic = λ u (d, _) p. cc;
  }

  searched :
      2 * suc (length deps) ≤ depth
      → Found graph (keys graph) start (search graph depth (keys graph) start)
  searched enough =
      search_lem graph (ends (new_dep ∷ deps))
        (λ u v e. edge-ends (new_dep ∷ deps) u v (sym (linked-full_graph new_dep deps u v) ∙ e))
        depth (keys graph) start start-Inv (λ v. refl) (keys-full_graph new_dep deps)
        (omega (arith, unseen-le-length (ends (new_dep ∷ deps)) [], length-ends (new_dep ∷ deps)))

  IsAcyclic-linked : IsAcyclic (linked graph) → IsAcyclic (edge (new_dep ∷ deps))
  IsAcyclic-linked acyclic v p =
      acyclic v (Plus-mono (λ u w e. linked-full_graph new_dep deps u w ∙ e) p)

  Plus-edge : {v : ℕ} → Plus (linked graph) v v → Plus (edge (new_dep ∷ deps)) v v
  Plus-edge p = Plus-mono (λ u w e. sym (linked-full_graph new_dep deps u w) ∙ e) p

  abbrev outcome : Result (Unit {0})
  outcome = validate_new_dependency depth new_dep deps

  -- What the tests before the search leave.
  outcome-ok :
      outcome ≡ ok tt
      → (new_dep.task_id ≢ new_dep.depends_on_task_id)
        × (edge deps new_dep.depends_on_task_id new_dep.task_id ≡ false)
        × (search graph depth (keys graph) start ≡ ok tt)
  unfolding validate_new_dependency
  outcome-ok h = ground (arith, duplicates-edge new_dep deps)

  outcome-search :
      new_dep.task_id ≢ new_dep.depends_on_task_id
      → edge deps new_dep.depends_on_task_id new_dep.task_id ≡ false
      → outcome ≡ search graph depth (keys graph) start
  unfolding validate_new_dependency
  outcome-search n d = ground (arith, duplicates-edge new_dep deps)

  outcome-raise :
      (e : Exception)
      → outcome ≡ raise e
      → (e ≡ dag_self_dependency_error)
        ⊎ (e ≡ dag_duplicate_error)
        ⊎ (search graph depth (keys graph) start ≡ raise e)
  unfolding validate_new_dependency
  outcome-raise e h = ground arith

  -- With an interpreter that recurs deep enough for the tasks that are named, a new dependency is
  -- accepted exactly when it is not on its own task, is not there yet, and closes no cycle.
  pub validate_iff :
      2 * suc (length deps) ≤ depth
      → (validate_new_dependency depth new_dep deps ≡ ok tt) ↔ (
          (new_dep.task_id ≢ new_dep.depends_on_task_id)
          × (edge deps new_dep.depends_on_task_id new_dep.task_id ≡ false)
          × IsAcyclic (edge (new_dep ∷ deps)))
  validate_iff enough = (
    λ h.
        let (other, fresh, found) = outcome-ok h in
        (
          other,
          fresh,
          elim (searched enough) [
            | inl (e, all) ↦ IsAcyclic-linked (AllDone-IsAcyclic graph start all)
            | inr (e, cycle) ↦ cc
          ],
        ),
    λ (other, fresh, acyclic). elim (searched enough) [
      | inl (e, all) ↦ outcome-search other fresh ∙ e
      | inr (e, (v, p)) ↦ absurd (acyclic v (Plus-edge p))
    ],
  )

  -- With an interpreter that recurs deep enough for the tasks that are named, an exception of the
  -- validation says that the dependency is on its own task, or that it is a duplicate, or that
  -- there is a cycle of the dependencies with the new one, which there then is. The recursion limit is
  -- never met.
  pub validate_raises :
      2 * suc (length deps) ≤ depth
      → (e : Exception) → validate_new_dependency depth new_dep deps ≡ raise e
      → (e ≡ dag_self_dependency_error)
        ⊎ (e ≡ dag_duplicate_error)
        ⊎ ((e ≡ dag_cycle_error) × ((v : ℕ) × Plus (edge (new_dep ∷ deps)) v v))
  validate_raises enough e h = elim (outcome-raise e h) [
    | inl self ↦ inl self
    | inr (inl twice) ↦ inr (inl twice)
    | inr (inr found) ↦ elim (searched enough) [
      | inl (f, all) ↦ cc
      | inr (f, (v, p)) ↦ inr (inr (cc, (v, Plus-edge p)))
    ]
  ]
