-- ===== src/Gateway/Calls/Safety.antt =====
-- What the policy promises of `execute_tool`: which calls reach a tool at all.
use aura_automated_user_rag.Base.{
  ◌<◌, true, false, String, none, some, ◌≡◌, ◌≢◌, inl, inr, refl, arith, elem, Bool-cases,
  Option-cases,
}
use aura_automated_user_rag.Domain.Events.{Ambient, Metadata}
use aura_automated_user_rag.Domain.Agents.{AgentCapability, agent_capability_eq}
use aura_automated_user_rag.Domain.Agents.Runs.{AgentRun}
use aura_automated_user_rag.Domain.Agents.Tools.{AgentPolicy, check_limits}
use aura_automated_user_rag.Store.{Database}
use aura_automated_user_rag.Gateway.{Host}
use aura_automated_user_rag.Gateway.Calls.{required_capability, check_capability, execute_tool}

-- What must hold of a call for its tool to run.
pub record Granted (policy : AgentPolicy) (agent_run : AgentRun) (tool_name : String) : Type 0 where
  pub capability : AgentCapability
  pub is_required : required_capability tool_name ≡ some capability
  pub not_denied : elem capability policy.denied_capabilities ≡ false
  pub allowed : elem capability policy.allowed_capabilities ≡ true
  pub few_iterations : agent_run.iteration_count < policy.max_iterations
  pub few_calls : agent_run.tool_call_count < policy.max_tool_calls

pub check_limits-below :
    (policy : AgentPolicy) (run : AgentRun)
    → check_limits policy run ≡ none
    → (run.iteration_count < policy.max_iterations) × (run.tool_call_count < policy.max_tool_calls)
check_limits-below policy run h = ground arith

is_allowed-lists :
    (policy : AgentPolicy) (capability : AgentCapability)
    → check_capability policy capability ≡ none
    → (elem capability policy.denied_capabilities ≡ false)
      × (elem capability policy.allowed_capabilities ≡ true)
is_allowed-lists policy capability h =
    elim (Bool-cases (elem capability policy.denied_capabilities)) [
      | inl denied ↦ absurd (ground arith)
      | inr free ↦ elim (Bool-cases (elem capability policy.allowed_capabilities)) [
        | inl listed ↦ (free, listed)
        | inr missing ↦ absurd (ground arith)
      ]
    ]

module _ (g : Ambient) (policy : AgentPolicy) (host other : Host) (agent_run : AgentRun)
    (tool_name : String) (arguments : Metadata) (worktree_path : String) where
  -- A call whose outcome depends on the host, which means that its tool has run, was granted: the
  -- capability that the tool requires is allowed by the policy and not denied, and the run was
  -- below both of its limits.
  pub execute_tool-Granted :
      (d : Database)
      → execute_tool g policy host agent_run tool_name arguments worktree_path d
        ≢ execute_tool g policy other agent_run tool_name arguments worktree_path d
      → Granted policy agent_run tool_name
  unfolding execute_tool
  execute_tool-Granted d differ = elim (Option-cases (check_limits policy agent_run)) [
    | inr (reason, over) ↦ absurd (differ (rw over refl))
    | inl below ↦ elim (Option-cases (required_capability tool_name)) [
      | inl unknown ↦ absurd (differ (rw (below, unknown) refl))
      | inr (capability, required) ↦ elim (Option-cases (check_capability policy capability)) [
        | inr (reason, refused_is) ↦ absurd (differ (rw (below, required, refused_is) refl))
        | inl fine ↦
            let (free, listed) = is_allowed-lists policy capability fine in
            let (iterations, calls) = check_limits-below policy agent_run below in
            record {
              capability = capability;
              is_required = required;
              not_denied = free;
              allowed = listed;
              few_iterations = iterations;
              few_calls = calls;
            }
      ]
    ]
  ]
