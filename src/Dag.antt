-- ===== src/Dag.antt =====
-- core/domain/dag/validator.py: the check of a new dependency between tasks. The sets of the search
-- are lists. `is_cyclic` recurs to the depth that the interpreter allows, which is the fuel here:
-- beyond it Python raises a RecursionError.
pub mod Paths
pub mod Search
pub mod Correct
pub mod Validation
pub mod Samples
use aura_automated_user_rag.Base.{
  ℕ, zero, suc, Bool, true, false, ◌&&◌, List, [], ◌∷◌, ◌++◌, map, ◌==◌, if◌then◌else◌, nat_eq,
  elem, Result, ok, raise, ◌>>=◌, dag_cycle_error, dag_duplicate_error, dag_self_dependency_error,
  recursion_error,
}
use aura_automated_user_rag.Domain.Tasks.{TaskDependency}

-- The adjacency dictionary, in the order in which its keys were inserted.
abbrev pub Graph : Type 0
Graph = List (ℕ × List ℕ)

-- `graph.setdefault(key, []).append(value)`
unfoldable pub append_edge : ℕ → ℕ → Graph → Graph
append_edge key value [] = (key, value ∷ []) ∷ []
append_edge key value ((k, values) ∷ graph) =
    if k == key
    then (k, values ++ value ∷ []) ∷ graph
    else (k, values) ∷ append_edge key value graph

-- `graph.get(node, [])`
unfoldable pub neighbors : Graph → ℕ → List ℕ
neighbors [] node = []
neighbors ((k, values) ∷ graph) node = if k == node then values else neighbors graph node

-- The loop that builds the adjacency dictionary.
unfoldable pub build : List TaskDependency → Graph → Graph
build [] graph = graph
build (d ∷ deps) graph = build deps (append_edge d.depends_on_task_id d.task_id graph)

pub record Dfs : Type 0 where
  pub visited : List ℕ
  pub rec_stack : List ℕ

-- `set.remove`
unfoldable pub remove : ℕ → List ℕ → List ℕ
remove x [] = []
remove x (y ∷ ys) = let rest = remove x ys in if y == x then rest else y ∷ rest

-- The `for neighbor in graph.get(node, [])` loop of `is_cyclic`; `visit` is its recursive call.
unfoldable pub scan : (ℕ → Dfs → Result (Bool × Dfs)) → List ℕ → Dfs → Result (Bool × Dfs)
scan visit [] s = ok (false, s)
scan visit (neighbor ∷ rest) s = elim (elem neighbor s.visited) [
  | false ↦ visit neighbor s >>= λ (cyclic, t). elim cyclic [
    | true ↦ ok (true, t)
    | false ↦ scan visit rest t
  ]
  | true ↦ elim (elem neighbor s.rec_stack) [ true ↦ ok (true, s) | false ↦ scan visit rest s ]
]

abbrev pub enter : ℕ → Dfs → Dfs
enter node s = record { visited = node ∷ s.visited; rec_stack = node ∷ s.rec_stack }

unfoldable pub is_cyclic : Graph → ℕ → ℕ → Dfs → Result (Bool × Dfs)
unfolding remove
is_cyclic graph zero node s = raise recursion_error
is_cyclic graph (suc depth) node s =
    scan (is_cyclic graph depth) (neighbors graph node) (enter node s) >>= λ (cyclic, t).
    elim cyclic [
      | true ↦ ok (true, t)
      | false ↦ ok (false, record t { rec_stack = remove node t.rec_stack })
    ]

-- The last loop of the validation, over the keys of the dictionary.
unfoldable pub search : Graph → ℕ → List ℕ → Dfs → Result (Unit {0})
search graph depth [] s = ok tt
search graph depth (node ∷ rest) s = elim (elem node s.visited) [
  | true ↦ search graph depth rest s
  | false ↦ is_cyclic graph depth node s >>= λ (cyclic, t). elim cyclic [
    | true ↦ raise dag_cycle_error
    | false ↦ search graph depth rest t
  ]
]

unfoldable pub duplicates : TaskDependency → List TaskDependency → Bool
duplicates new_dep [] = false
duplicates new_dep (d ∷ deps) =
    let rest = duplicates new_dep deps in
    if (d.task_id == new_dep.task_id) && (d.depends_on_task_id == new_dep.depends_on_task_id)
    then true
    else rest

abbrev pub full_graph : TaskDependency → List TaskDependency → Graph
full_graph new_dep existing_deps =
    append_edge new_dep.depends_on_task_id new_dep.task_id (build existing_deps [])

-- `DAGValidator.validate_new_dependency`
unfoldable pub validate_new_dependency :
    ℕ → TaskDependency → List TaskDependency → Result (Unit {0})
unfolding duplicates
validate_new_dependency depth new_dep existing_deps =
    if new_dep.task_id == new_dep.depends_on_task_id
    then raise dag_self_dependency_error
    else if duplicates new_dep existing_deps
    then raise dag_duplicate_error
    else let graph = full_graph new_dep existing_deps in
      search graph depth (map (λ entry. entry.0) graph) (record { visited = []; rec_stack = [] })
