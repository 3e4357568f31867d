-- ===== src/Planner/Samples.antt =====
-- A mission that is planned a second time: the first answer has a cycle, and the next one is right.
use aura_automated_user_rag.Base.{
  ℕ, zero, suc, ◌*◌, ◌≤◌, true, String, List, [], ◌∷◌, ◌≡◌, refl, arith, length, ok, ok-injective,
  subst, sym, pos, sorted, select,
}
use aura_automated_user_rag.Domain.Events.{Ambient}
use aura_automated_user_rag.Domain.Missions.{MissionStatus}
use aura_automated_user_rag.Domain.Tasks.{TaskType, TaskDependency}
use aura_automated_user_rag.Domain.Plans.{PlanStatus, PlanTask, PlannerOutput, EngineeringPlan}
use aura_automated_user_rag.Domain.Samples.{ambient, database_of}
use aura_automated_user_rag.Dag.{
  validate_new_dependency, build, append_edge, neighbors, scan, is_cyclic, search, remove,
  duplicates,
}
use aura_automated_user_rag.Store.{Database}
use aura_automated_user_rag.Store.Rows.{get_mission_row}
use aura_automated_user_rag.Store.PlanRows.{plans_of_mission}
use aura_automated_user_rag.Planner.{
  Response, Provider, title_to_id, plan_dependencies, validate_each, supersede, attempts,
  generate_plan,
}
use aura_automated_user_rag.Planner.Acyclic.{Planned, DeepEnough}
use aura_automated_user_rag.Planner.Supersedes.{begun, OnlyCurrent, generate_plan-Planned}

abbrev task : String → List String → PlanTask
task title dependencies = record {
  title = title;
  description = "description";
  task_type = TaskType.implementation;
  priority = pos 0;
  dependencies = dependencies;
  required_capabilities = [];
  estimated_complexity = "medium";
}

abbrev output : List PlanTask → PlannerOutput
output tasks = record {
  summary = "summary";
  assumptions = [];
  risks = [];
  tasks = tasks;
  validation_strategy = record { approach = "tests"; tests_required = true };
}

abbrev answer : ℕ → PlannerOutput
answer zero = output (task "a" ("b" ∷ []) ∷ task "b" ("a" ∷ []) ∷ [])
answer (suc _) = output (task "a" [] ∷ task "b" ("a" ∷ []) ∷ [])

abbrev llm : Provider
llm = record {
  contexts = λ _. ok tt;
  generate = λ _ k _. ok (record { provider = "p"; model = "m"; output = ok (answer k) });
  explain = λ _. "error";
  last_error = λ _. "None";
}

abbrev ambients : ℕ → Ambient
ambients k = ambient

answers_bounded :
    (k : ℕ) (deps : List TaskDependency)
    → plan_dependencies (ambients k) (answer k) ≡ ok deps
    → 2 * suc (length deps) ≤ 100
unfolding plan_dependencies title_to_id
answers_bounded zero deps h =
    subst (λ (ds : List TaskDependency). 2 * suc (length ds) ≤ 100) (ok-injective h) (omega arith)
answers_bounded (suc k) deps h =
    subst (λ (ds : List TaskDependency). 2 * suc (length ds) ≤ 100) (ok-injective h) (omega arith)

deep_enough : DeepEnough 100 ambients llm 1
deep_enough mission k last_error resp given deps generated parsed are =
    let same : record { provider = "p"; model = "m"; output = ok (answer k) } ≡ resp =
      ok-injective generated in
    let out : answer k ≡ given =
      ok-injective (subst (λ (r : Response). r.output ≡ ok given) (sym same) parsed) in
    answers_bounded k deps (subst (λ o. plan_dependencies (ambients k) o ≡ ok deps) (sym out) are)

abbrev database : Database
database = database_of MissionStatus.planning [] []

abbrev plan : EngineeringPlan
plan = record {
  id = 1000;
  mission_id = 1;
  planner_agent_id = "planner-v1";
  planner_version = "1.0.0";
  provider = "p";
  model = "m";
  output = answer 1;
  status = PlanStatus.validated;
  created_at = 50;
}

generate_plan-Planned_example :
    Planned 100 ambients llm 1 plan
      (begun 100 ambients llm 1 deep_enough database).1
      (generate_plan 100 ambients llm 1 database).1
    × OnlyCurrent 100 ambients llm 1 deep_enough plan (generate_plan 100 ambients llm 1 database).1
unfolding generate_plan get_mission_row select plans_of_mission sorted supersede attempts
    plan_dependencies title_to_id validate_each validate_new_dependency build append_edge neighbors
    scan is_cyclic search remove duplicates
generate_plan-Planned_example =
    generate_plan-Planned 100 ambients llm 1 deep_enough database plan refl
