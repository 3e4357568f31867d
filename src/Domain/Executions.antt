-- ===== src/Domain/Executions.antt =====
-- core/domain/execution: environments, commands and their results.
use aura_automated_user_rag.Base.{ℕ, ℤ, Bool, String, Option, List, Eq, of_discrete}

pub data EnvironmentStatus : Type 0 where
  creating ready running completed failed cleaning_up destroyed : EnvironmentStatus

pub data CommandStatus : Type 0 where
  succeeded failed timed_out rejected : CommandStatus

abbrev pub EnvironmentStatus-discrete : Discrete EnvironmentStatus
EnvironmentStatus-discrete = hlevel

abbrev pub CommandStatus-discrete : Discrete CommandStatus
CommandStatus-discrete = hlevel

instance abbrev pub environment_status_eq : Eq EnvironmentStatus
environment_status_eq = of_discrete EnvironmentStatus-discrete

instance abbrev pub command_status_eq : Eq CommandStatus
command_status_eq = of_discrete CommandStatus-discrete

pub record ExecutionEnvironment : Type 0 where
  pub id : ℕ
  pub mission_id : ℕ
  pub task_id : ℕ
  pub execution_id : ℕ
  pub status : EnvironmentStatus
  pub worktree_path : Option String
  pub base_commit_sha : Option String
  pub created_at : ℕ
  pub started_at : Option ℕ
  pub completed_at : Option ℕ
  pub failure_reason : Option String
  pub metadata : List (String × String)

pub data ArtifactType : Type 0 where
  patch test_report log build_output diff source other : ArtifactType

pub record ExecutionCommand : Type 0 where
  pub executable : String
  pub arguments : List String
  pub working_directory : String
  pub timeout_seconds : ℤ
  pub environment : List (String × String)
  pub stdin : Option String

-- A duration is in whole milliseconds here.
pub record CommandResult : Type 0 where
  pub id : ℕ
  pub environment_id : ℕ
  pub status : CommandStatus
  pub exit_code : Option ℤ
  pub stdout : String
  pub stderr : String
  pub duration_ms : ℕ
  pub is_timed_out : Bool
  pub output_truncated : Bool
  pub failure_reason : Option String

pub record Artifact : Type 0 where
  pub id : ℕ
  pub environment_id : ℕ
  pub path : String
  pub type : ArtifactType
  pub size : ℕ
  pub sha256 : String
  pub created_at : ℕ
  pub metadata : List (String × String)

-- `EnvironmentStatus` and `CommandStatus` by their values
abbrev pub environment_value : EnvironmentStatus → String
environment_value EnvironmentStatus.creating = "CREATING"
environment_value EnvironmentStatus.ready = "READY"
environment_value EnvironmentStatus.running = "RUNNING"
environment_value EnvironmentStatus.completed = "COMPLETED"
environment_value EnvironmentStatus.failed = "FAILED"
environment_value EnvironmentStatus.cleaning_up = "CLEANING_UP"
environment_value EnvironmentStatus.destroyed = "DESTROYED"

abbrev pub command_value : CommandStatus → String
command_value CommandStatus.succeeded = "SUCCEEDED"
command_value CommandStatus.failed = "FAILED"
command_value CommandStatus.timed_out = "TIMED_OUT"
command_value CommandStatus.rejected = "REJECTED"
