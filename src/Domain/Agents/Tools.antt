-- ===== src/Domain/Agents/Tools.antt =====
-- core/domain/agents: calls of tools, the decisions of a model, and the policy of an agent
-- (entities.py, enums.py, interfaces.py and the table of tools.py).
use aura_automated_user_rag.Base.{
  ℕ, Bool, false, String, Option, none, some, List, [], ◌∷◌, Eq, of_discrete, elem, string_eq, leb,
  decimal, if◌then◌else◌,
}
use Prim.Native.String.{◌++◌ as append}
use aura_automated_user_rag.Domain.Events.{Metadata}
use aura_automated_user_rag.Domain.Agents.{AgentCapability, agent_capability_eq}
use aura_automated_user_rag.Domain.Agents.Runs.{AgentRun}

pub data ToolCallStatus : Type 0 where
  pending allowed rejected running completed failed timed_out : ToolCallStatus

abbrev pub ToolCallStatus-discrete : Discrete ToolCallStatus
ToolCallStatus-discrete = hlevel

instance abbrev pub tool_call_status_eq : Eq ToolCallStatus
tool_call_status_eq = of_discrete ToolCallStatus-discrete

pub record ToolCall : Type 0 where
  pub id : ℕ
  pub agent_run_id : ℕ
  pub tool_name : String
  pub arguments : Metadata
  pub policy_decision : ToolCallStatus
  pub policy_reason : Option String
  pub status : ToolCallStatus
  pub started_at : Option ℕ
  pub completed_at : Option ℕ
  pub result_summary : Option String
  pub failure_reason : Option String
  pub created_at : ℕ

-- The confidence, a floating-point number, and the correlation are not read.
pub record AgentDecision : Type 0 where
  pub action_type : String
  pub target : String
  pub arguments : Metadata
  pub rationale : String
  pub expected_result : String

-- The values of `ActionType`
abbrev pub action_types : List String
action_types =
    "READ_FILE" ∷ "LIST_DIRECTORY" ∷ "SEARCH_REPOSITORY" ∷ "WRITE_FILE" ∷ "RUN_COMMAND"
    ∷ "GET_GIT_STATUS" ∷ "GET_GIT_DIFF" ∷ "RUN_TESTS" ∷ "FINISH_TASK" ∷ []

-- `required_capability` of `TOOL_SCHEMAS`, by the name of the tool.
abbrev pub tool_schemas : List (String × AgentCapability)
tool_schemas =
    ("READ_FILE", AgentCapability.read_repository)
    ∷ ("LIST_DIRECTORY", AgentCapability.read_repository)
    ∷ ("SEARCH_REPOSITORY", AgentCapability.search_repository)
    ∷ ("WRITE_FILE", AgentCapability.write_repository)
    ∷ ("RUN_COMMAND", AgentCapability.run_command)
    ∷ ("GET_GIT_STATUS", AgentCapability.read_git)
    ∷ ("GET_GIT_DIFF", AgentCapability.read_git)
    ∷ ("RUN_TESTS", AgentCapability.run_tests)
    ∷ ("FINISH_TASK", AgentCapability.finish_task)
    ∷ []

-- `capability.value`
abbrev pub capability_value : AgentCapability → String
capability_value AgentCapability.read_repository = "READ_REPOSITORY"
capability_value AgentCapability.write_repository = "WRITE_REPOSITORY"
capability_value AgentCapability.search_repository = "SEARCH_REPOSITORY"
capability_value AgentCapability.run_tests = "RUN_TESTS"
capability_value AgentCapability.run_command = "RUN_COMMAND"
capability_value AgentCapability.read_git = "READ_GIT"
capability_value AgentCapability.write_git = "WRITE_GIT"
capability_value AgentCapability.finish_task = "FINISH_TASK"
capability_value AgentCapability.debug_code = "DEBUG_CODE"
capability_value AgentCapability.analyze_tests = "ANALYZE_TESTS"
capability_value AgentCapability.security_analysis = "SECURITY_ANALYSIS"
capability_value AgentCapability.code_review = "CODE_REVIEW"
capability_value AgentCapability.generate_docs = "GENERATE_DOCS"
capability_value AgentCapability.release_management = "RELEASE_MANAGEMENT"

pub record AgentPolicy : Type 0 where
  pub allowed_capabilities : List AgentCapability
  pub denied_capabilities : List AgentCapability
  pub max_iterations : ℕ
  pub max_tool_calls : ℕ
  pub max_runtime_seconds : ℕ
  pub max_failed_actions : ℕ
  pub requires_approval_for : List String

-- `AgentPolicy.is_allowed`
abbrev pub is_allowed : AgentPolicy → AgentCapability → Bool
is_allowed policy capability =
    if elem capability policy.denied_capabilities
    then false
    else elem capability policy.allowed_capabilities

abbrev pub exceeded : String → ℕ → ℕ → String
exceeded limit reached most =
    append limit
      (append " limit exceeded: " (append (decimal reached) (append " >= " (decimal most))))

-- `AgentPolicy.check_limits`
abbrev pub check_limits : AgentPolicy → AgentRun → Option String
check_limits policy run =
    if leb policy.max_iterations run.iteration_count
    then some (exceeded "Iteration" run.iteration_count policy.max_iterations)
    else if leb policy.max_tool_calls run.tool_call_count
    then some (exceeded "Tool call" run.tool_call_count policy.max_tool_calls)
    else none

-- A Python object that a tool returns: its `str`, its truth, and what it holds if it is a dictionary.
pub record Output : Type 0 where
  pub shown : String
  pub truthy : Bool
  pub entries : Option Metadata

pub record ToolResult : Type 0 where
  pub success : Bool
  pub output : Option Output
  pub error : Option String
  pub metadata : Metadata

-- `ToolResult(success=False, error=error)`
abbrev pub refused : Option String → ToolResult
refused error = record { success = false; output = none; error = error; metadata = [] }
