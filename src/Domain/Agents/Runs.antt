-- ===== src/Domain/Agents/Runs.antt =====
-- core/domain/agents/entities.py and state_machine.py: the run of an agent.
use aura_automated_user_rag.Base.{
  ℕ, Bool, String, Option, List, [], ◌∷◌, Eq, of_discrete, elem, Result, ok, raise, if◌then◌else◌,
  invalid_agent_run_transition,
}
use aura_automated_user_rag.Domain.Events.{Value}

pub data AgentRunStatus : Type 0 where
  created ready running verifying completed failed timed_out cancelled blocked : AgentRunStatus
  policy_rejected : AgentRunStatus

abbrev pub AgentRunStatus-discrete : Discrete AgentRunStatus
AgentRunStatus-discrete = hlevel

instance abbrev pub agent_run_status_eq : Eq AgentRunStatus
agent_run_status_eq = of_discrete AgentRunStatus-discrete

-- The runtime assigns to `final_result` what the decision of a model holds, of whatever type.
pub record AgentRun : Type 0 where
  pub id : ℕ
  pub mission_id : ℕ
  pub task_id : ℕ
  pub task_execution_id : ℕ
  pub agent_id : ℕ
  pub status : AgentRunStatus
  pub iteration_count : ℕ
  pub tool_call_count : ℕ
  pub max_iterations : ℕ
  pub max_tool_calls : ℕ
  pub max_runtime_seconds : ℕ
  pub max_failed_actions : ℕ
  pub started_at : Option ℕ
  pub completed_at : Option ℕ
  pub failure_reason : Option String
  pub final_result : Value
  pub created_at : ℕ
  pub updated_at : ℕ

-- `AgentRunStateMachine.VALID_TRANSITIONS`
abbrev pub valid_transitions : AgentRunStatus → List AgentRunStatus
valid_transitions created = ready ∷ []
valid_transitions ready = running ∷ cancelled ∷ []
valid_transitions running =
    verifying ∷ completed ∷ failed ∷ timed_out ∷ cancelled ∷ blocked ∷ policy_rejected ∷ []
valid_transitions verifying = completed ∷ failed ∷ running ∷ cancelled ∷ []
valid_transitions completed = []
valid_transitions failed = []
valid_transitions timed_out = []
valid_transitions cancelled = []
valid_transitions blocked = running ∷ cancelled ∷ []
valid_transitions policy_rejected = running ∷ cancelled ∷ []

-- `AgentRunStateMachine.can_transition`
abbrev pub can_transition : AgentRunStatus → AgentRunStatus → Bool
can_transition from_status to_status = elem to_status (valid_transitions from_status)

-- `AgentRunStateMachine.transition`; `now` is its reading of the clock.
unfoldable pub transition : ℕ → AgentRun → AgentRunStatus → Result AgentRun
transition now run new_status =
    if can_transition run.status new_status
    then ok (record run { status = new_status; updated_at = now })
    else raise invalid_agent_run_transition
