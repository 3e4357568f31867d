-- ===== src/Dag/Samples.antt =====
-- The validation on small graphs.
use aura_automated_user_rag.Base.{
  ℕ, false, List, [], ◌∷◌, ◌≡◌, ◌≢◌, ◌↔◌, ◌⊎◌, refl, arith, ok, raise, dag_cycle_error,
  dag_duplicate_error, dag_self_dependency_error,
}
use aura_automated_user_rag.Domain.Tasks.{TaskDependency}
use aura_automated_user_rag.Dag.{
  validate_new_dependency, search, is_cyclic, scan, build, neighbors, append_edge,
}
use aura_automated_user_rag.Dag.Paths.{edge, Plus, IsAcyclic}
use aura_automated_user_rag.Dag.Validation.{validate_iff, validate_raises}

abbrev after : ℕ → ℕ → TaskDependency
after task parent = record { task_id = task; depends_on_task_id = parent }

-- 2 depends on 1, 3 on 2 and 4 on both.
abbrev diamond : List TaskDependency
diamond = after 2 1 ∷ after 3 2 ∷ after 4 2 ∷ after 4 1 ∷ []

diamond_accepts : validate_new_dependency 20 (after 4 3) diamond ≡ ok tt
unfolding validate_new_dependency search is_cyclic scan build neighbors append_edge
diamond_accepts = refl

diamond_rejects : validate_new_dependency 20 (after 1 4) diamond ≡ raise dag_cycle_error
unfolding validate_new_dependency search is_cyclic scan build neighbors append_edge
diamond_rejects = refl

diamond_duplicate : validate_new_dependency 20 (after 3 2) diamond ≡ raise dag_duplicate_error
unfolding validate_new_dependency
diamond_duplicate = refl

validate_iff_example :
    (validate_new_dependency 20 (after 4 3) diamond ≡ ok tt)
    ↔ (◌≢◌ {A = ℕ} 4 3 × (edge diamond 3 4 ≡ false) × IsAcyclic (edge (after 4 3 ∷ diamond)))
validate_iff_example = validate_iff 20 (after 4 3) diamond (omega arith)

validate_raises_example :
    (dag_cycle_error ≡ dag_self_dependency_error)
    ⊎ (dag_cycle_error ≡ dag_duplicate_error)
    ⊎ ((dag_cycle_error ≡ dag_cycle_error) × ((v : ℕ) × Plus (edge (after 1 4 ∷ diamond)) v v))
validate_raises_example =
    validate_raises 20 (after 1 4) diamond (omega arith) dag_cycle_error diamond_rejects
