-- ===== src/Domain/Tasks.antt =====
-- core/domain/tasks: the task, its dependencies and executions, and the state machine.
pub mod Lifecycle
pub mod Samples
use aura_automated_user_rag.Base.{
  ℕ, ℤ, Bool, String, Option, List, [], ◌∷◌, Eq, of_discrete, elem, Result, ok, raise,
  if◌then◌else◌, invalid_task_transition, ◌>>=◌,
}
use aura_automated_user_rag.Domain.Events.{Metadata}

pub data TaskType : Type 0 where
  analysis planning implementation testing security_review code_review verification : TaskType

pub data TaskStatus : Type 0 where
  pending ready queued running succeeded failed retrying blocked cancelled : TaskStatus

pub data TaskExecutionStatus : Type 0 where
  created pending ready queued running succeeded failed retrying blocked : TaskExecutionStatus
  cancelled : TaskExecutionStatus

abbrev pub TaskStatus-discrete : Discrete TaskStatus
TaskStatus-discrete = hlevel

instance abbrev pub task_status_eq : Eq TaskStatus
task_status_eq = of_discrete TaskStatus-discrete

abbrev pub TaskExecutionStatus-discrete : Discrete TaskExecutionStatus
TaskExecutionStatus-discrete = hlevel

instance abbrev pub task_execution_status_eq : Eq TaskExecutionStatus
task_execution_status_eq = of_discrete TaskExecutionStatus-discrete

pub record Task : Type 0 where
  pub id : ℕ
  pub mission_id : ℕ
  pub title : String
  pub description : String
  pub status : TaskStatus
  pub task_type : TaskType
  pub priority : ℤ
  pub assigned_agent_id : Option ℕ
  pub attempt_count : ℕ
  pub max_attempts : ℕ
  pub created_at : ℕ
  pub updated_at : ℕ

pub record TaskDependency : Type 0 where
  pub task_id : ℕ
  pub depends_on_task_id : ℕ

pub record TaskExecution : Type 0 where
  pub id : ℕ
  pub task_id : ℕ
  pub agent_id : Option ℕ
  pub attempt_number : ℕ
  pub status : TaskExecutionStatus
  pub started_at : ℕ
  pub completed_at : Option ℕ
  pub error : Option String
  pub result_metadata : Metadata

-- `TaskStateMachine.VALID_TRANSITIONS`
abbrev pub valid_transitions : TaskStatus → List TaskStatus
valid_transitions TaskStatus.pending =
    TaskStatus.ready ∷ TaskStatus.blocked ∷ TaskStatus.cancelled ∷ []
valid_transitions TaskStatus.ready =
    TaskStatus.queued ∷ TaskStatus.blocked ∷ TaskStatus.cancelled ∷ []
valid_transitions TaskStatus.queued = TaskStatus.running ∷ TaskStatus.cancelled ∷ []
valid_transitions TaskStatus.running = TaskStatus.succeeded ∷ TaskStatus.failed ∷ []
valid_transitions TaskStatus.failed = TaskStatus.retrying ∷ []
valid_transitions TaskStatus.retrying = TaskStatus.queued ∷ []
valid_transitions TaskStatus.blocked = TaskStatus.ready ∷ []
valid_transitions TaskStatus.succeeded = []
valid_transitions TaskStatus.cancelled = []

-- `TaskStateMachine.transition`
unfoldable pub transition : Task → TaskStatus → Result Task
transition task new_status =
    if elem new_status (valid_transitions task.status)
    then ok (record task { status = new_status })
    else raise invalid_task_transition

-- A history: one call of `transition` for each status of the list, in order.
unfoldable pub transitions : Task → List TaskStatus → Result Task
transitions task [] = ok task
transitions task (s ∷ ss) = transition task s >>= λ t. transitions t ss
