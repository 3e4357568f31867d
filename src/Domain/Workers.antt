-- ===== src/Domain/Workers.antt =====
-- core/domain/workers: workers, leases, heartbeats and the state machine of a worker.
use aura_automated_user_rag.Base.{
  ℕ, Bool, String, Option, List, [], ◌∷◌, Eq, of_discrete, elem, Result, ok, raise, if◌then◌else◌,
  invalid_worker_transition,
}
use aura_automated_user_rag.Domain.Events.{Metadata}

pub data WorkerStatus : Type 0 where
  registered available busy draining stopped stale : WorkerStatus

pub data WorkerCapability : Type 0 where
  coding testing security_review documentation research : WorkerCapability

-- `capability.value`
abbrev pub value : WorkerCapability → String
value coding = "CODING"
value testing = "TESTING"
value security_review = "SECURITY_REVIEW"
value documentation = "DOCUMENTATION"
value research = "RESEARCH"

abbrev pub WorkerStatus-discrete : Discrete WorkerStatus
WorkerStatus-discrete = hlevel

instance abbrev pub worker_status_eq : Eq WorkerStatus
worker_status_eq = of_discrete WorkerStatus-discrete

-- `capabilities` are strings, as in the source; `capabilities_enum` is read by nothing.
pub record Worker : Type 0 where
  pub id : ℕ
  pub name : String
  pub status : WorkerStatus
  pub capabilities : List String
  pub capabilities_enum : List WorkerCapability
  pub last_heartbeat_at : Option ℕ
  pub metadata : Metadata
  pub created_at : ℕ
  pub updated_at : ℕ

pub record WorkerHeartbeat : Type 0 where
  pub worker_id : ℕ
  pub task_execution_id : Option ℕ
  pub task_id : Option ℕ
  pub lease_expires_at : Option ℕ
  pub metadata : Metadata
  pub created_at : ℕ

pub record TaskLease : Type 0 where
  pub id : ℕ
  pub worker_id : ℕ
  pub task_id : ℕ
  pub task_execution_id : ℕ
  pub claimed_at : ℕ
  pub lease_expires_at : ℕ
  pub last_heartbeat_at : Option ℕ
  pub renewed_count : ℕ
  pub metadata : Metadata
  pub created_at : ℕ
  pub updated_at : ℕ

-- `WorkerStateMachine.VALID_TRANSITIONS`
abbrev pub valid_transitions : WorkerStatus → List WorkerStatus
valid_transitions registered = available ∷ stopped ∷ []
valid_transitions available = busy ∷ draining ∷ stopped ∷ stale ∷ []
valid_transitions busy = available ∷ draining ∷ stopped ∷ stale ∷ []
valid_transitions draining = stopped ∷ stale ∷ []
valid_transitions stopped = registered ∷ []
valid_transitions stale = stopped ∷ []

-- `WorkerStateMachine.can_transition`
abbrev pub can_transition : WorkerStatus → WorkerStatus → Bool
can_transition from_status to_status = elem to_status (valid_transitions from_status)

-- `WorkerStateMachine.transition`; `now` is its reading of the clock.
unfoldable pub transition : ℕ → Worker → WorkerStatus → Result Worker
transition now worker new_status =
    if can_transition worker.status new_status
    then ok (record worker { status = new_status; updated_at = now })
    else raise invalid_worker_transition
