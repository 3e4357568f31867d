-- ===== src/Planner/Acyclic.antt =====
-- A plan that `generate_plan` returns has no cycle.
use aura_automated_user_rag.Base.{
  ℕ, zero, suc, ◌+◌, ◌*◌, ◌≤◌, Bool, true, Option, none, List, [], ◌∷◌, ◌++◌, ◌≡◌, inl, inr, refl,
  subst, arith, length, filter, Bool-cases, Result, ok, raise, ok-injective, String,
}
use aura_automated_user_rag.Domain.Events.{Ambient}
use aura_automated_user_rag.Domain.Missions.{Mission}
use aura_automated_user_rag.Domain.Tasks.{TaskDependency}
use aura_automated_user_rag.Domain.Plans.{PlanStatus, PlannerOutput, EngineeringPlan}
use aura_automated_user_rag.Dag.{validate_new_dependency}
use aura_automated_user_rag.Dag.Paths.{edge, Plus, Plus-mono, IsAcyclic}
use aura_automated_user_rag.Dag.Validation.{validate_iff}
use aura_automated_user_rag.Store.{Database}
use aura_automated_user_rag.Store.PlanRows.{create_plan}
use aura_automated_user_rag.Planner.{
  Response, Provider, plan_dependencies, differs, validate_each, and_also, validated_deps, checked,
  check_output, end_attempt, respond, attempts, with_contexts,
}

edge-differs :
    (d : TaskDependency) (deps : List TaskDependency) (u v : ℕ)
    → edge deps u v ≡ true
    → edge (d ∷ filter (differs d) deps) u v ≡ true
edge-differs d [] u v h = cc
edge-differs d (x ∷ deps) u v h = ground (arith, edge-differs d deps u v)

length-filter : {A : Type 0} (p : A → Bool) (xs : List A) → length (filter p xs) ≤ length xs
length-filter p [] = omega arith
length-filter p (x ∷ xs) = elim (Bool-cases (p x)) [
  | inl kept ↦ rw kept (omega (arith, length-filter p xs))
  | inr out ↦ rw out (omega (arith, length-filter p xs))
]

edgeless : (v w : ℕ) → ¬ Plus (edge []) v w
edgeless v w (Plus.one e) = cc
edgeless v w (Plus.more e p) = cc

and_also-first : (r rest : Result (Unit {0})) → and_also r rest ≡ ok tt → r ≡ ok tt
and_also-first (ok _) rest h = refl
and_also-first (raise e) rest h = absurd (cc)

-- Dependencies that are each valid against the others have no cycle.
validate_each-IsAcyclic :
    (depth : ℕ) (deps : List TaskDependency)
    → 2 * suc (length deps) ≤ depth
    → validate_each depth deps deps ≡ ok tt
    → IsAcyclic (edge deps)
unfolding validate_each
validate_each-IsAcyclic depth [] enough h v p = edgeless v v p
validate_each-IsAcyclic depth (d ∷ ds) enough h v p =
    let others : List TaskDependency = filter (differs d) (d ∷ ds) in
    let valid : validate_new_dependency depth d others ≡ ok tt = and_also-first _ _ h in
    let fewer : 2 * suc (length others) ≤ depth =
      omega (arith, enough, length-filter (differs d) (d ∷ ds)) in
    let (_, _, acyclic) = (validate_iff depth d others fewer).0 valid in
    acyclic v (Plus-mono (edge-differs d (d ∷ ds)) p)

module _ (depth : ℕ) (gs : ℕ → Ambient) (llm : Provider) (mission_id : ℕ) where
  -- What is known of a plan that is returned with a database: it is VALIDATED and stored, and the
  -- dependencies of its tasks, all of them resolved, have no cycle.
  pub record Planned (plan : EngineeringPlan) (before after : Database) : Type 0 where
    pub attempt : ℕ
    pub deps : List TaskDependency
    pub are_deps : plan_dependencies (gs attempt) plan.output ≡ ok deps
    pub acyclic : IsAcyclic (edge deps)
    pub status_is : plan.status ≡ PlanStatus.validated
    pub mission_is : plan.mission_id ≡ mission_id
    pub is_stored : after.plans ≡ before.plans ++ plan ∷ []

  -- The recursion limit is enough for the dependencies of every answer.
  abbrev pub DeepEnough : Type 0
  DeepEnough =
      (mission : Mission) (k : ℕ) (last_error : Option String) (resp : Response)
      (output : PlannerOutput) (deps : List TaskDependency)
      → llm.generate mission k last_error ≡ ok resp
      → resp.output ≡ ok output
      → plan_dependencies (gs k) output ≡ ok deps
      → 2 * suc (length deps) ≤ depth

  -- A result that is planned, if it is no exception.
  abbrev pub AllPlanned : Database → Result EngineeringPlan × Database → Type 0
  AllPlanned before (ok plan, after) = Planned plan before after
  AllPlanned before (raise e, after) = Unit {0}

  checked-output :
      (output last : PlannerOutput) (r : Result (Unit {0}))
      → checked depth gs llm mission_id output r ≡ ok last
      → (r ≡ ok tt) × (output ≡ last)
  checked-output output last (ok _) h = (refl, ok-injective h)
  checked-output output last (raise e) h = absurd (cc)

  deps-IsAcyclic :
      (k : ℕ) (output : PlannerOutput) (r : Result (List TaskDependency))
      → plan_dependencies (gs k) output ≡ r
      → ((deps : List TaskDependency) → r ≡ ok deps → 2 * suc (length deps) ≤ depth)
      → validated_deps depth gs llm mission_id r ≡ ok tt
      → (deps : List TaskDependency) × (r ≡ ok deps) × IsAcyclic (edge deps)
  deps-IsAcyclic k output (raise e) h fits valid = absurd (cc)
  deps-IsAcyclic k output (ok deps) h fits valid =
      (deps, refl, validate_each-IsAcyclic depth deps (fits deps refl) valid)

  module _ (enough : DeepEnough) where
    end_attempt-Planned :
        (retry : Option String → Database → Result EngineeringPlan × Database) (k : ℕ)
        (resp : Response) (parsed r : Result PlannerOutput) (d : Database)
        → ((e : Option String) → AllPlanned d (retry e d))
        → ((output : PlannerOutput) (deps : List TaskDependency)
            → parsed ≡ ok output
            → plan_dependencies (gs k) output ≡ ok deps
            → 2 * suc (length deps) ≤ depth)
        → check_output depth gs llm mission_id k parsed ≡ r
        → AllPlanned d (end_attempt depth gs llm mission_id retry k resp r d)
    unfolding create_plan
    end_attempt-Planned retry k resp parsed (raise e) d again fits h = again _
    end_attempt-Planned retry k resp (raise e) (ok output) d again fits h = absurd (cc)
    end_attempt-Planned retry k resp (ok given) (ok output) d again fits h =
        let (valid, same) = checked-output given output _ h in
        let (deps, are, acyclic) =
          deps-IsAcyclic k given (plan_dependencies (gs k) given) refl
            (λ ds e. fits given ds refl e) valid in
        record {
          attempt = k;
          deps = deps;
          are_deps = subst (λ o. plan_dependencies (gs k) o ≡ ok deps) same are;
          acyclic = acyclic;
          status_is = refl;
          mission_is = refl;
          is_stored = refl;
        }

    respond-Planned :
        (retry : Option String → Database → Result EngineeringPlan × Database) (mission : Mission)
        (k : ℕ) (last_error : Option String) (r : Result Response) (d : Database)
        → llm.generate mission k last_error ≡ r
        → ((e : Option String) → AllPlanned d (retry e d))
        → AllPlanned d (respond depth gs llm mission_id retry k r d)
    respond-Planned retry mission k last_error (raise e) d h again = tt
    respond-Planned retry mission k last_error (ok resp) d h again =
        end_attempt-Planned retry k resp resp.output
          (check_output depth gs llm mission_id k resp.output) d again
          (λ output deps parsed are. enough mission k last_error resp output deps h parsed are) refl

    attempts-Planned :
        (mission : Mission) (left k : ℕ) (last_error : Option String) (d : Database)
        → AllPlanned d (attempts depth gs llm mission_id mission left k last_error d)
    unfolding attempts
    attempts-Planned mission zero k last_error d = tt
    attempts-Planned mission (suc left) k last_error d =
        respond-Planned (attempts depth gs llm mission_id mission left (k + 1)) mission k last_error
          (llm.generate mission k last_error) d refl
          (λ e. attempts-Planned mission left (k + 1) e d)

    pub with_contexts-Planned :
        (mission : Mission) (r : Result (Unit {0})) (d : Database)
        → AllPlanned d (with_contexts depth gs llm mission_id mission r d)
    with_contexts-Planned mission (raise e) d = tt
    with_contexts-Planned mission (ok _) d = attempts-Planned mission 2 0 none d
