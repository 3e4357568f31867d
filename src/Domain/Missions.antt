-- ===== src/Domain/Missions.antt =====
-- core/domain/missions: the mission, its statuses and its state machine.
pub mod Gates
pub mod Samples
use aura_automated_user_rag.Base.{
  ℕ, Bool, String, List, [], ◌∷◌, Eq, of_discrete, elem, Result, ok, raise, if◌then◌else◌,
  invalid_mission_transition, ◌>>=◌,
}

pub data MissionStatus : Type 0 where
  created planning planned approved_for_execution executing verifying recovering : MissionStatus
  verified pr_ready awaiting_human_approval merged cancelled aborted blocked : MissionStatus
  failed_permanently : MissionStatus

abbrev pub MissionStatus-discrete : Discrete MissionStatus
MissionStatus-discrete = hlevel

instance abbrev pub mission_status_eq : Eq MissionStatus
mission_status_eq = of_discrete MissionStatus-discrete

-- `status.value`
abbrev pub value : MissionStatus → String
value created = "CREATED"
value planning = "PLANNING"
value planned = "PLANNED"
value approved_for_execution = "APPROVED_FOR_EXECUTION"
value executing = "EXECUTING"
value verifying = "VERIFYING"
value recovering = "RECOVERING"
value verified = "VERIFIED"
value pr_ready = "PR_READY"
value awaiting_human_approval = "AWAITING_HUMAN_APPROVAL"
value merged = "MERGED"
value cancelled = "CANCELLED"
value aborted = "ABORTED"
value blocked = "BLOCKED"
value failed_permanently = "FAILED_PERMANENTLY"

pub record Mission : Type 0 where
  pub id : ℕ
  pub title : String
  pub description : String
  pub repository_id : String
  pub source : String
  pub status : MissionStatus
  pub risk_level : String
  pub created_at : ℕ
  pub updated_at : ℕ

-- `MissionStateMachine.VALID_TRANSITIONS`
abbrev pub valid_transitions : MissionStatus → List MissionStatus
valid_transitions created = planning ∷ cancelled ∷ []
valid_transitions planning = planned ∷ failed_permanently ∷ cancelled ∷ []
valid_transitions planned = planning ∷ approved_for_execution ∷ cancelled ∷ []
valid_transitions approved_for_execution = executing ∷ cancelled ∷ []
valid_transitions executing = verifying ∷ recovering ∷ cancelled ∷ blocked ∷ failed_permanently ∷ []
valid_transitions verifying = verified ∷ recovering ∷ failed_permanently ∷ []
valid_transitions recovering = executing ∷ failed_permanently ∷ []
valid_transitions verified = pr_ready ∷ []
valid_transitions pr_ready = awaiting_human_approval ∷ []
valid_transitions awaiting_human_approval = merged ∷ cancelled ∷ []
valid_transitions merged = []
valid_transitions cancelled = []
valid_transitions aborted = []
valid_transitions blocked = planning ∷ executing ∷ cancelled ∷ []
valid_transitions failed_permanently = []

-- `MissionStateMachine.transition`
unfoldable pub transition : Mission → MissionStatus → Result Mission
transition mission new_status =
    if elem new_status (valid_transitions mission.status)
    then ok (record mission { status = new_status })
    else raise invalid_mission_transition

-- A history: one call of `transition` for each status of the list, in order.
unfoldable pub transitions : Mission → List MissionStatus → Result Mission
transitions mission [] = ok mission
transitions mission (s ∷ ss) = transition mission s >>= λ m. transitions m ss
