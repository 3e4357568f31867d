-- ===== src/Gateway.antt =====
-- core/application/tool_gateway.py: the gateway between an agent and its tools. The file system, git,
-- the parsing of arguments and the execution service are the fields of a `Host`, as they are at the
-- time of a call.
pub mod Commands
pub mod Files
pub mod Calls
pub mod Environments
pub mod Samples
pub mod Confined
use aura_automated_user_rag.Base.{
  ℕ, ℤ, Bool, String, Option, none, List, [], Result, ok, raise, Exception,
}
use aura_automated_user_rag.Domain.Events.{Metadata}
use aura_automated_user_rag.Domain.Executions.{ExecutionCommand, CommandResult}
use aura_automated_user_rag.Domain.Agents.Tools.{Output, ToolResult, refused}
use aura_automated_user_rag.Store.Work.{Script}
use aura_automated_user_rag.Execution.Paths.{PathFunctions}

-- `RunCommandInput` and `RunTestsInput`: the executable is the command of the tests.
pub record CommandInput : Type 0 where
  pub executable : String
  pub arguments : List String
  pub working_directory : String
  pub timeout_seconds : ℤ

-- What a run of git gives: whether its return code is 0, and its outputs, the first one stripped.
pub record GitOutcome : Type 0 where
  pub succeeded : Bool
  pub stdout : String
  pub stderr : String

pub record Host : Type 0 where
  pub paths : PathFunctions
  pub exists : String → Bool
  pub isfile : String → Bool
  pub getsize : String → ℕ
  pub read_text : String → Result String
  pub dirname : String → String
  pub makedirs : String → Result (Unit {0})
  pub write_text : String → String → Result (Unit {0})
  pub encoded_length : String → ℕ
  pub git : String → String → Result GitOutcome
  pub parse_path : Metadata → Result String
  pub parse_git : Metadata → Result String
  pub parse_write : Metadata → Result (String × String)
  pub parse_command : Metadata → Result CommandInput
  pub parse_tests : Metadata → Result CommandInput
  pub parse_finish : Metadata → Result (String × Bool)
  pub list_directory : Metadata → String → Result (Bool × Option Output × Option String)
  pub search_repository : Metadata → String → Result (Bool × Option Output × Option String)
  pub execute_command : ℕ → ExecutionCommand → Script CommandResult
  pub str : Exception → String
  pub shown : Metadata → String

-- `ToolResult(success=True, output=output)`
abbrev pub returned : Output → ToolResult
returned output = record {
  success = Bool.true;
  output = Option.some output;
  error = none;
  metadata = [];
}

-- `ToolResult(success=success, output=output, error=error)`
abbrev pub reported : Bool × Option Output × Option String → ToolResult
reported (success, output, error) = record {
  success = success;
  output = output;
  error = error;
  metadata = [];
}

-- `except Exception as e: return ToolResult(success=False, error=str(e))`
abbrev pub caught {ℓ} : {A : Type ℓ} → Host → (A → ToolResult) → Result A → ToolResult
caught host f (ok a) = f a
caught host f (raise e) = refused (Option.some (host.str e))
