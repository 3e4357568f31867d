-- ===== src/Missions/Samples.antt =====
-- An approval of a mission that is planned, and dependencies between its tasks.
use aura_automated_user_rag.Base.{
  ◌<◌, ◌≤◌, ◌*◌, ◌≢◌, ◌↔◌, ◌≟◌, All, true, refl, none, [], ◌∷◌, ◌++◌, ◌≡◌, ◌⊎◌, arith, Exception,
  invalid_mission_transition, ok, raise, select, modify,
}
use aura_automated_user_rag.Domain.Missions.{MissionStatus, transition}
use aura_automated_user_rag.Domain.Tasks.{TaskStatus, task_status_eq}
use aura_automated_user_rag.Domain.Approvals.{Approval, ApprovalStatus, ApprovalType}
use aura_automated_user_rag.Domain.Samples.{ambient, mission_of, task_of, after, database_of}
use aura_automated_user_rag.Store.{Database}
use aura_automated_user_rag.Store.TaskRows.{dependencies_of_mission, tasks_of_mission}
use aura_automated_user_rag.Store.Rows.{
  get_mission_row, update_mission_row, update_approval, append_event, get_approval,
}
use aura_automated_user_rag.Dag.Paths.{edge, IsAcyclic}
use aura_automated_user_rag.Missions.Service.{resolve_approval}
use aura_automated_user_rag.Missions.Service.Consent.{
  Licensed, resolve_approval-Licensed, reject-planned,
}
use aura_automated_user_rag.Missions.Orchestrator.{add_dependency, calculate_progress, progress}
use aura_automated_user_rag.Missions.Orchestrator.Progress.{calculate_progress_complete}
use aura_automated_user_rag.Missions.Orchestrator.Planning.{add_dependency-IsAcyclic}

abbrev approval : Approval
approval = record {
  id = 3;
  mission_id = 1;
  approval_type = ApprovalType.execution;
  status = ApprovalStatus.pending;
  requested_at = 0;
  resolved_at = none;
  resolved_by = none;
  metadata = [];
}

abbrev waiting : Database
waiting = record (database_of MissionStatus.planned [] []) { approvals = approval ∷ [] }

resolve_approval-Licensed_example :
    (MissionStatus.approved_for_execution ≡ MissionStatus.planned)
    ⊎ Licensed waiting 3 ApprovalStatus.approved 1
        (mission_of MissionStatus.planned)
        (mission_of MissionStatus.approved_for_execution)
unfolding resolve_approval get_mission_row update_mission_row update_approval append_event
    get_approval select modify transition
resolve_approval-Licensed_example =
    resolve_approval-Licensed ambient 3 ApprovalStatus.approved none waiting 1
      (mission_of MissionStatus.planned) (mission_of MissionStatus.approved_for_execution) refl refl

reject-planned_example :
    resolve_approval ambient 3 ApprovalStatus.rejected none waiting
    ≡ (raise invalid_mission_transition, waiting)
unfolding get_mission_row get_approval select
reject-planned_example =
    reject-planned ambient 3 none waiting approval (mission_of MissionStatus.planned) refl refl refl

abbrev chain : Database
chain =
    database_of MissionStatus.planning
      (task_of 1 TaskStatus.pending
        ∷ task_of 2 TaskStatus.pending
        ∷ task_of 3 TaskStatus.pending
        ∷ [])
      (after 2 1 ∷ [])

add_dependency-IsAcyclic_example :
    ((e : Exception) × (add_dependency 10 1 (after 3 2) chain ≡ (raise e, chain)))
    ⊎ (((add_dependency 10 1 (after 3 2) chain).0 ≡ ok tt)
        × (dependencies_of_mission 1 (add_dependency 10 1 (after 3 2) chain).1
            ≡ dependencies_of_mission 1 chain ++ after 3 2 ∷ [])
        × IsAcyclic (edge (dependencies_of_mission 1 (add_dependency 10 1 (after 3 2) chain).1)))
unfolding dependencies_of_mission select
add_dependency-IsAcyclic_example = add_dependency-IsAcyclic 10 1 (after 3 2) chain (omega arith)

abbrev half : Database
half =
    database_of MissionStatus.executing
      (task_of 1 TaskStatus.succeeded ∷ task_of 2 TaskStatus.running ∷ []) []

half_done : calculate_progress 1 half ≡ (100, 2)
unfolding calculate_progress progress tasks_of_mission
half_done = refl

calculate_progress_complete_example :
    ((calculate_progress 1 half).0 ≤ 100 * (calculate_progress 1 half).1)
    × (0 < (calculate_progress 1 half).1)
    × (((calculate_progress 1 half).0 ≡ 100 * (calculate_progress 1 half).1) ↔ (
        (tasks_of_mission 1 half ≢ [])
        × All (λ t. (t.status ≟ TaskStatus.succeeded) ≡ true) (tasks_of_mission 1 half)))
calculate_progress_complete_example = calculate_progress_complete 1 half
