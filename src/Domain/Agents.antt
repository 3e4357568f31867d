-- ===== src/Domain/Agents.antt =====
-- core/domain/agents: agents, their runs, and the tasks of an agent workflow.
pub mod Runs
pub mod Workflows
pub mod Tools
use aura_automated_user_rag.Base.{ℕ, String, Option, List, Eq, of_discrete}

pub data AgentType : Type 0 where
  coding_agent planner_agent debugger_agent tester_agent security_reviewer_agent : AgentType
  code_reviewer_agent documentation_agent release_agent : AgentType

pub data AgentStatus : Type 0 where
  active inactive deprecated : AgentStatus

pub data AgentCapability : Type 0 where
  read_repository write_repository search_repository run_tests run_command : AgentCapability
  read_git write_git finish_task debug_code analyze_tests security_analysis : AgentCapability
  code_review generate_docs release_management : AgentCapability

abbrev pub AgentCapability-discrete : Discrete AgentCapability
AgentCapability-discrete = hlevel

instance abbrev pub agent_capability_eq : Eq AgentCapability
agent_capability_eq = of_discrete AgentCapability-discrete

-- `agent_type.value`
abbrev pub type_value : AgentType → String
type_value coding_agent = "CODING_AGENT"
type_value planner_agent = "PLANNER_AGENT"
type_value debugger_agent = "DEBUGGER_AGENT"
type_value tester_agent = "TESTER_AGENT"
type_value security_reviewer_agent = "SECURITY_REVIEWER_AGENT"
type_value code_reviewer_agent = "CODE_REVIEWER_AGENT"
type_value documentation_agent = "DOCUMENTATION_AGENT"
type_value release_agent = "RELEASE_AGENT"

pub record Agent : Type 0 where
  pub id : ℕ
  pub name : String
  pub agent_type : AgentType
  pub version : String
  pub capabilities : List AgentCapability
  pub status : AgentStatus
  pub created_at : ℕ
  pub updated_at : ℕ
