-- ===== src/Dag/Paths.antt =====
-- Dependencies as a graph: edges, paths and cycles, and the dictionary that holds them.
use aura_automated_user_rag.Base.{
  ℕ, Bool, true, false, ◌&&◌, ◌||◌, List, [], ◌∷◌, ◌++◌, ◌==◌, ◌≡◌, refl, nat_eq, elem, arith, map,
  if◌then◌else◌,
}
use aura_automated_user_rag.Domain.Tasks.{TaskDependency}
use aura_automated_user_rag.Dag.{Graph, append_edge, neighbors, build, remove}

-- `edge deps u v`: some dependency says that task `v` depends on task `u`.
abbrev pub edge : List TaskDependency → ℕ → ℕ → Bool
edge [] u v = false
edge (d ∷ deps) u v = ((d.depends_on_task_id == u) && (d.task_id == v)) || edge deps u v

-- The paths of at least one edge.
pub data Plus (r : ℕ → ℕ → Bool) : ℕ → ℕ → Type 0 where
  one : {u v : ℕ} → r u v ≡ true → Plus r u v
  more : {u v w : ℕ} → r u v ≡ true → Plus r v w → Plus r u w

abbrev pub IsAcyclic : (ℕ → ℕ → Bool) → Type 0
IsAcyclic r = (v : ℕ) → ¬ Plus r v v

pub Plus-snoc : {r : ℕ → ℕ → Bool} {u v w : ℕ} → Plus r u v → r v w ≡ true → Plus r u w
Plus-snoc (one e) f = more e (one f)
Plus-snoc (more e p) f = more e (Plus-snoc p f)

pub Plus-mono :
    {r q : ℕ → ℕ → Bool}
    → ((u v : ℕ) → r u v ≡ true → q u v ≡ true)
    → {u v : ℕ} → Plus r u v
    → Plus q u v
Plus-mono h (one {u} {v} e) = one (h u v e)
Plus-mono h (more {u} {v} e p) = more (h u v e) (Plus-mono h p)

-- The edges that a dictionary holds.
abbrev pub linked : Graph → ℕ → ℕ → Bool
linked graph u v = elem v (neighbors graph u)

pub elem-append_one : (v w : ℕ) (xs : List ℕ) → elem v (xs ++ w ∷ []) ≡ (elem v xs || (v == w))
elem-append_one v w [] = ground arith
elem-append_one v w (x ∷ xs) = ground (arith, elem-append_one v w xs)

pub elem-remove :
    (x v : ℕ) (xs : List ℕ) → elem v (remove x xs) ≡ (if v == x then false else elem v xs)
unfolding remove
elem-remove x v [] = ground arith
elem-remove x v (y ∷ ys) = ground (arith, elem-remove x v ys)

pub linked-append_edge :
    (k w u v : ℕ) (graph : Graph)
    → linked (append_edge k w graph) u v ≡ (((k == u) && (w == v)) || linked graph u v)
unfolding append_edge neighbors
linked-append_edge k w u v [] = ground arith
linked-append_edge k w u v ((j, ns) ∷ graph) =
    ground (arith, linked-append_edge k w u v graph, elem-append_one v w ns)

pub linked-build :
    (deps : List TaskDependency) (graph : Graph) (u v : ℕ)
    → linked (build deps graph) u v ≡ (edge deps u v || linked graph u v)
unfolding build
linked-build [] graph u v = refl
linked-build (d ∷ deps) graph u v = ground (
  arith,
  linked-build deps (append_edge d.depends_on_task_id d.task_id graph) u v,
  linked-append_edge d.depends_on_task_id d.task_id u v graph,
)

-- The start of an edge is a key of the dictionary.
pub linked-keys :
    (graph : Graph) (u v : ℕ)
    → linked graph u v ≡ true
    → elem u (map (λ entry. entry.0) graph) ≡ true
unfolding neighbors
linked-keys [] u v h = cc
linked-keys ((k, ns) ∷ graph) u v h = ground (arith, linked-keys graph u v)
