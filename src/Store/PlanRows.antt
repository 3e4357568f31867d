-- ===== src/Store/PlanRows.antt =====
-- `SQLAlchemyPlanRepository`.
use aura_automated_user_rag.Base.{
  ℕ, Option, List, [], ◌∷◌, ◌++◌, ◌==◌, ltb, filter, sorted, select, modify,
}
use aura_automated_user_rag.Domain.Plans.{EngineeringPlan}
use aura_automated_user_rag.Store.{Database}

abbrev pub plan_key : EngineeringPlan → ℕ
plan_key plan = plan.id

-- `plans.create`, `plans.get`
unfoldable pub create_plan : EngineeringPlan → Database → Database
create_plan plan d = record d { plans = d.plans ++ plan ∷ [] }

unfoldable pub get_plan : ℕ → Database → Option EngineeringPlan
get_plan plan_id d = select plan_key plan_id d.plans

-- `plans.get_by_mission`: the latest first.
unfoldable pub plans_of_mission : ℕ → Database → List EngineeringPlan
plans_of_mission mission_id d =
    sorted (λ a b. ltb b.created_at a.created_at) (filter (λ p. p.mission_id == mission_id) d.plans)

-- `plans.update`
abbrev pub write_plan : EngineeringPlan → EngineeringPlan → EngineeringPlan
write_plan plan row = record row { status = plan.status; output = plan.output }

unfoldable pub update_plan : EngineeringPlan → Database → Database
update_plan plan d = record d { plans = modify plan_key plan.id (write_plan plan) d.plans }
