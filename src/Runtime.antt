-- ===== src/Runtime.antt =====
-- core/application/agent_runtime.py: the loop in which a model decides and tools act. The answers of
-- the model, the clock and the host are what a `Round` of the loop finds. The text of the prompts is
-- left out: an answer may depend on all that they are made of.
pub mod Finish
pub mod Outcomes
pub mod Loop
pub mod Ends
pub mod Answers
pub mod Rounds
pub mod Returns
pub mod Tasks
pub mod Refinement
pub mod Completion
pub mod Samples
use aura_automated_user_rag.Base.{ℕ, Bool, String, Option, List}
use aura_automated_user_rag.Domain.Events.{Ambient}
use aura_automated_user_rag.Domain.Tasks.{Task}
use aura_automated_user_rag.Domain.Agents.{Agent}
use aura_automated_user_rag.Domain.Agents.Runs.{AgentRun}
use aura_automated_user_rag.Domain.Agents.Tools.{AgentPolicy, AgentDecision, ToolCall}
use aura_automated_user_rag.Gateway.{Host}

-- `generate` is the answer of the model, parsed, and none where that raises; `is_late` tells whether
-- the clock is past the maximum at the start of the round.
pub record Round : Type 0 where
  pub is_late : Bool
  pub ambient : Ambient
  pub host : Host
  pub generate : AgentRun → Option Task → List ToolCall → Option AgentDecision

-- `CodingAgentRuntime`, and the arguments of its method `run`.
pub record Runtime : Type 0 where
  pub agent_policy : AgentPolicy
  pub agent : Agent
  pub task_id : ℕ
  pub task_execution_id : ℕ
  pub agent_id : ℕ
  pub worktree_path : String
