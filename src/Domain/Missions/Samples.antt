-- ===== src/Domain/Missions/Samples.antt =====
-- A mission that is merged, and one that waits for its approval.
use aura_automated_user_rag.Base.{true, List, [], ◌∷◌, In, ◌≡◌, refl, ok}
use aura_automated_user_rag.Domain.Missions.{
  MissionStatus, mission_status_eq, Mission, transition, transitions, created, planning, planned,
  approved_for_execution, executing, verifying, verified, pr_ready, awaiting_human_approval, merged,
}
use aura_automated_user_rag.Domain.Missions.Gates.{
  terminal, executing-after-approved, merged-after-gates, mission_can_end, terminal_absorbs,
}

abbrev mission : MissionStatus → Mission
mission status = record {
  id = 1;
  title = "title";
  description = "description";
  repository_id = "repository";
  source = "source";
  status = status;
  risk_level = "medium";
  created_at = 0;
  updated_at = 0;
}

abbrev to_executing : List MissionStatus
to_executing = planning ∷ planned ∷ approved_for_execution ∷ executing ∷ []

abbrev to_merged : List MissionStatus
to_merged =
    planning ∷ planned ∷ approved_for_execution ∷ executing ∷ verifying ∷ verified ∷ pr_ready
    ∷ awaiting_human_approval ∷ merged ∷ []

executing-after-approved_example : In approved_for_execution to_executing
unfolding transitions transition
executing-after-approved_example =
    executing-after-approved (mission created) to_executing (mission executing) refl refl refl

merged-after-gates_example :
    In approved_for_execution to_merged
    × In verified to_merged
    × In awaiting_human_approval to_merged
unfolding transitions transition
merged-after-gates_example =
    merged-after-gates (mission created) to_merged (mission merged) refl refl refl

mission_can_end_example :
    (path : List MissionStatus) × (s : MissionStatus) × (transitions (mission pr_ready) path
      ≡ ok (record (mission pr_ready) { status = s }))
    × (terminal s ≡ true)
mission_can_end_example = mission_can_end (mission pr_ready)

abbrev no_path : List MissionStatus
no_path = []

terminal_absorbs_example : (no_path ≡ []) × (mission merged ≡ mission merged)
unfolding transitions
terminal_absorbs_example = terminal_absorbs (mission merged) [] (mission merged) refl refl
