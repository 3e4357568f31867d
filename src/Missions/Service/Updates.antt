-- ===== src/Missions/Service/Updates.antt =====
-- `update_mission_status` on every branch.
use mathlib.Core.Option
use aura_automated_user_rag.Base.{
  ℕ, true, false, none, some, [], ◌∷◌, ◌++◌, ◌≡◌, ◌≢◌, elem, Result, ok, raise,
  invalid_mission_transition, mission_not_found,
}
use aura_automated_user_rag.Domain.Events.{Ambient, new_event, text}
use aura_automated_user_rag.Domain.Missions.{
  Mission, MissionStatus, mission_status_eq, valid_transitions, value,
}
use aura_automated_user_rag.Store.{Database}
use aura_automated_user_rag.Store.Rows.{get_mission_row}

module _ (g : Ambient) (mission_id : ℕ) (new_status : MissionStatus) (d : Database) where
  pub data Update (r : Result Mission × Database) : Type 0 where
    missing : get_mission_row mission_id d ≡ none → r ≡ (raise mission_not_found, d) → Update r
    refused :
        (m : Mission)
        → get_mission_row mission_id d ≡ some m
        → elem new_status (valid_transitions m.status) ≡ false
        → r ≡ (raise invalid_mission_transition, d)
        → Update r
    moved :
        (m : Mission)
        → get_mission_row mission_id d ≡ some m
        → elem new_status (valid_transitions m.status) ≡ true
        → r.0 ≡ ok (record m { status = new_status })
        → get_mission_row mission_id r.1 ≡ some (record m { status = new_status })
        → ((j : ℕ) → j ≢ mission_id → get_mission_row j r.1 ≡ get_mission_row j d)
        → r.1.events
          ≡ d.events
            ++ new_event g 0 "mission.state_changed" m.id none none
                (("new_status", text (value new_status)) ∷ [])
              ∷ []
        → Update r
