-- ===== src/Domain/Plans.antt =====
-- core/domain/plans: the plans of a mission. The bounds on the lengths of texts and lists are part of
-- the parsing of a plan.
use aura_automated_user_rag.Base.{ℕ, ℤ, Bool, String, List, Eq, of_discrete}
use aura_automated_user_rag.Domain.Tasks.{TaskType}

pub data PlanStatus : Type 0 where
  generated validated rejected approved superseded : PlanStatus

abbrev pub PlanStatus-discrete : Discrete PlanStatus
PlanStatus-discrete = hlevel

instance abbrev pub plan_status_eq : Eq PlanStatus
plan_status_eq = of_discrete PlanStatus-discrete

pub record PlanTask : Type 0 where
  pub title : String
  pub description : String
  pub task_type : TaskType
  pub priority : ℤ
  pub dependencies : List String
  pub required_capabilities : List String
  pub estimated_complexity : String

pub record PlanRisk : Type 0 where
  pub description : String
  pub mitigation : String

pub record ValidationStrategy : Type 0 where
  pub approach : String
  pub tests_required : Bool

-- An assumption is its description.
pub record PlannerOutput : Type 0 where
  pub summary : String
  pub assumptions : List String
  pub risks : List PlanRisk
  pub tasks : List PlanTask
  pub validation_strategy : ValidationStrategy

pub record EngineeringPlan : Type 0 where
  pub id : ℕ
  pub mission_id : ℕ
  pub planner_agent_id : String
  pub planner_version : String
  pub provider : String
  pub model : String
  pub output : PlannerOutput
  pub status : PlanStatus
  pub created_at : ℕ
