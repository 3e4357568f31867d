-- ===== src/Domain/Agents/Workflows.antt =====
-- core/domain/agents/orchestration: the tasks of an agent workflow and their state machine.
use aura_automated_user_rag.Base.{
  ℕ, ℤ, Bool, String, Option, some, List, [], ◌∷◌, Eq, of_discrete, elem, ◌≟◌, Result, ok, raise,
  if◌then◌else◌, invalid_agent_task_transition,
}
use aura_automated_user_rag.Domain.Events.{Metadata}
use aura_automated_user_rag.Domain.Agents.{AgentType, AgentCapability}

pub data AgentTaskStatus : Type 0 where
  pending ready assigned running waiting succeeded failed retrying blocked : AgentTaskStatus
  cancelled : AgentTaskStatus

abbrev pub AgentTaskStatus-discrete : Discrete AgentTaskStatus
AgentTaskStatus-discrete = hlevel

instance abbrev pub agent_task_status_eq : Eq AgentTaskStatus
agent_task_status_eq = of_discrete AgentTaskStatus-discrete

pub record AgentTask : Type 0 where
  pub id : ℕ
  pub workflow_id : ℕ
  pub mission_id : ℕ
  pub task_id : ℕ
  pub agent_type : AgentType
  pub required_capabilities : List AgentCapability
  pub title : String
  pub description : String
  pub input_payload : Metadata
  pub output_payload : Metadata
  pub priority : ℤ
  pub max_retries : ℕ
  pub retry_count : ℕ
  pub status : AgentTaskStatus
  pub assigned_agent_id : Option ℕ
  pub agent_run_id : Option ℕ
  pub created_at : ℕ
  pub updated_at : ℕ
  pub started_at : Option ℕ
  pub completed_at : Option ℕ
  pub error : Option String
  pub result_metadata : Metadata

-- `AgentTaskStateMachine.VALID_TRANSITIONS`
abbrev pub valid_transitions : AgentTaskStatus → List AgentTaskStatus
valid_transitions pending = ready ∷ cancelled ∷ []
valid_transitions ready = assigned ∷ blocked ∷ cancelled ∷ []
valid_transitions assigned = running ∷ cancelled ∷ []
valid_transitions running = waiting ∷ succeeded ∷ failed ∷ cancelled ∷ []
valid_transitions waiting = running ∷ blocked ∷ cancelled ∷ []
valid_transitions succeeded = []
valid_transitions failed = retrying ∷ []
valid_transitions retrying = pending ∷ cancelled ∷ []
valid_transitions blocked = ready ∷ cancelled ∷ []
valid_transitions cancelled = []

-- `AgentTaskStateMachine.can_transition`
abbrev pub can_transition : AgentTaskStatus → AgentTaskStatus → Bool
can_transition from_status to_status = elem to_status (valid_transitions from_status)

-- The stamps that follow the change of status; `now 1` is their reading of the clock.
abbrev stamp : (ℕ → ℕ) → AgentTaskStatus → AgentTask → AgentTask
stamp now new_status task =
    if new_status ≟ running
    then record task { started_at = some (now 1) }
    else if elem new_status (succeeded ∷ failed ∷ cancelled ∷ [])
    then record task { completed_at = some (now 1) }
    else task

-- `AgentTaskStateMachine.transition`
unfoldable pub transition : (ℕ → ℕ) → AgentTask → AgentTaskStatus → Result AgentTask
transition now task new_status =
    if can_transition task.status new_status
    then ok (stamp now new_status (record task { status = new_status; updated_at = now 0 }))
    else raise invalid_agent_task_transition
