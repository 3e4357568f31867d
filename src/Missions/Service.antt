-- ===== src/Missions/Service.antt =====
-- core/application/mission_service.py.
pub mod Consent
pub mod Updates
use aura_automated_user_rag.Base.{
  ℕ, Bool, true, false, Option, none, some, String, List, [], ◌∷◌, ◌≟◌, ◌&&◌, if◌then◌else◌, Result,
  ok, raise, mission_not_found, assertion_error, value_error,
}
use aura_automated_user_rag.Domain.Events.{
  Ambient, Value, Metadata, new_event, put, ident, text, null,
}
use aura_automated_user_rag.Domain.Missions.{
  Mission, MissionStatus, mission_status_eq, value, transition,
}
use aura_automated_user_rag.Domain.Approvals.{
  Approval, ApprovalStatus, ApprovalType, approval_status_eq, approval_type_eq, status_value,
  type_value,
}
use aura_automated_user_rag.Store.{Database}
use aura_automated_user_rag.Store.Work.{
  Uow, pure, throw, reads, writes, commit, with_uow, ◌>>=◌, ◌>>◌,
}
use aura_automated_user_rag.Store.Rows.{
  create_mission_row, get_mission_row, update_mission_row, append_event, create_approval,
  get_approval, update_approval,
}

module _ (g : Ambient) where
  -- An event of a mission, at the k-th draw.
  abbrev pub mission_event : ℕ → String → ℕ → Metadata → Database → Database
  mission_event k event_type mission_id metadata =
      append_event (new_event g k event_type mission_id none none metadata)

  abbrev new_mission : String → String → String → String → String → Mission
  new_mission title description repository_id source risk_level = record {
    id = g.uuid 0;
    title = title;
    description = description;
    repository_id = repository_id;
    source = source;
    status = MissionStatus.created;
    risk_level = risk_level;
    created_at = g.now 0;
    updated_at = g.now 1;
  }

  -- `create_mission`
  unfoldable pub create_mission :
      String → String → String → String → String → Database → Result Mission × Database
  create_mission title description repository_id source risk_level =
      let mission = new_mission title description repository_id source risk_level in
      with_uow (do
        writes (create_mission_row mission)
        writes (
            mission_event 2 "mission.created" mission.id (
              ("title", text title)
              ∷ ("repository_id", text repository_id)
              ∷ ("source", text source)
              ∷ []))
        commit
        pure mission)

  -- The event of a transition.
  abbrev pub state_changed : ℕ → MissionStatus → Mission → Database → Database
  state_changed k new_status mission =
      mission_event k "mission.state_changed" mission.id
        (("new_status", text (value new_status)) ∷ [])

  abbrev pub write_status : MissionStatus → Result Mission → Uow Mission
  write_status new_status (raise e) = throw e
  write_status new_status (ok updated_mission) = do
    writes (update_mission_row updated_mission)
    writes (state_changed 0 new_status updated_mission)
    commit
    pure updated_mission

  abbrev pub set_status : MissionStatus → Option Mission → Uow Mission
  set_status new_status none = throw mission_not_found
  set_status new_status (some mission) = write_status new_status (transition mission new_status)

  -- `update_mission_status`
  unfoldable pub update_mission_status : ℕ → MissionStatus → Database → Result Mission × Database
  update_mission_status mission_id new_status =
      with_uow (reads (get_mission_row mission_id) >>= set_status new_status)

  abbrev new_approval : ℕ → ApprovalType → Approval
  new_approval mission_id approval_type = record {
    id = g.uuid 0;
    mission_id = mission_id;
    approval_type = approval_type;
    status = ApprovalStatus.pending;
    requested_at = g.now 0;
    resolved_at = none;
    resolved_by = none;
    metadata = [];
  }

  abbrev request : ℕ → ApprovalType → Option Mission → Uow Approval
  request mission_id approval_type none = throw mission_not_found
  request mission_id approval_type (some mission) = do
    writes (create_approval (new_approval mission_id approval_type))
    writes (
        mission_event 1 "mission.execution_approval_requested" mission_id
          (("approval_id", ident (g.uuid 0)) ∷ ("type", text (type_value approval_type)) ∷ []))
    commit
    pure (new_approval mission_id approval_type)

  -- `request_approval`
  unfoldable pub request_approval : ℕ → ApprovalType → Database → Result Approval × Database
  request_approval mission_id approval_type =
      with_uow (reads (get_mission_row mission_id) >>= request mission_id approval_type)

  abbrev pub reason_value : Option String → Value
  reason_value none = null
  reason_value (some reason) = text reason

  abbrev pub resolved : ApprovalStatus → Option String → Approval → Approval
  resolved status reason approval = record approval {
    status = status;
    resolved_at = some (g.now 0);
    metadata = put "reason" (reason_value reason) approval.metadata;
  }

  abbrev pub resolution : ApprovalType → ApprovalStatus → String
  resolution approval_type status =
      if approval_type ≟ ApprovalType.merge
      then if status ≟ ApprovalStatus.approved
        then "mission.merge_approved"
        else "mission.merge_rejected"
      else if status ≟ ApprovalStatus.approved
      then "mission.execution_approved"
      else "mission.execution_rejected"

  abbrev pub move_to : MissionStatus → Mission → Result Mission → Uow (Unit {0})
  move_to to mission (raise e) = throw e
  move_to to mission (ok updated_mission) = do
    writes (update_mission_row updated_mission)
    writes (state_changed 2 to mission)

  -- The mission moves on where it has the status that the resolution expects.
  abbrev pub move_from : MissionStatus → MissionStatus → Option Mission → Uow (Unit {0})
  move_from from to none = throw assertion_error
  move_from from to (some mission) =
      if mission.status ≟ from then move_to to mission (transition mission to) else pure tt

  -- The `if` and `elif`s that follow the event.
  abbrev pub follow : Approval → ApprovalStatus → Uow (Unit {0})
  follow approval status =
      if (status ≟ ApprovalStatus.approved) && (approval.approval_type ≟ ApprovalType.execution)
      then reads (get_mission_row approval.mission_id)
        >>= move_from MissionStatus.planned MissionStatus.approved_for_execution
      else if (status ≟ ApprovalStatus.approved) && (approval.approval_type ≟ ApprovalType.merge)
      then reads (get_mission_row approval.mission_id)
        >>= move_from MissionStatus.awaiting_human_approval MissionStatus.merged
      else if status ≟ ApprovalStatus.rejected
      then reads (get_mission_row approval.mission_id)
        >>= move_from MissionStatus.planned MissionStatus.blocked
      else pure tt

  abbrev pub close : Approval → Uow Approval
  close approval = commit >> pure approval

  abbrev pub resolve : ApprovalStatus → Option String → Option Approval → Uow Approval
  resolve status reason none = throw (value_error "Approval not found")
  resolve status reason (some approval) = do
    writes (update_approval (resolved status reason approval))
    writes (
        mission_event 1 (resolution approval.approval_type status) approval.mission_id
          (("approval_id", ident approval.id) ∷ ("status", text (status_value status)) ∷ []))
    follow approval status
    close (resolved status reason approval)

  -- `resolve_approval`
  unfoldable pub resolve_approval :
      ℕ → ApprovalStatus → Option String → Database → Result Approval × Database
  resolve_approval approval_id status reason =
      with_uow (reads (get_approval approval_id) >>= resolve status reason)
