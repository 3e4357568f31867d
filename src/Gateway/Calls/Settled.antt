-- ===== src/Gateway/Calls/Settled.antt =====
-- How a call ends: always with a result, and with a row that says how.
use aura_automated_user_rag.Base.{
  false, String, none, some, ◌≡◌, inl, inr, refl, ap, ◌∙◌, ==_refl, Option-cases, select-modify,
  select-append, if◌then◌else◌, Result, ok, raise,
}
use mathlib.Core.Option
use aura_automated_user_rag.Domain.Events.{Ambient, Metadata}
use aura_automated_user_rag.Domain.Agents.Runs.{AgentRun}
use aura_automated_user_rag.Domain.Agents.Tools.{
  AgentPolicy, check_limits, ToolCall, ToolCallStatus, ToolResult,
}
use aura_automated_user_rag.Store.{Database}
use aura_automated_user_rag.Store.AgentRows.{
  call_key, create_tool_call, get_tool_call, update_tool_call, write_call,
}
use aura_automated_user_rag.Gateway.{Host}
use aura_automated_user_rag.Gateway.Calls.{
  required_capability, check_capability, settle, execute_tool, execute_tool_impl, new_call,
  done_call, failed_call, started,
}

module _ (g : Ambient) (policy : AgentPolicy) (host : Host) (agent_run : AgentRun)
    (tool_name : String) (arguments : Metadata) (worktree_path : String) where
  -- The status under which a call with such a result is kept.
  abbrev pub status_of : ToolResult → ToolCallStatus
  status_of result = if result.success then ToolCallStatus.completed else ToolCallStatus.failed

  -- How the call ends: its result, and the row that is kept under its identifier. A call that is
  -- stopped by a limit or an unknown name has no row of its own.
  pub data Settled (d d' : Database) (result : ToolResult) : Type 0 where
    stopped : result.success ≡ false → d' ≡ d → Settled d d' result
    denied :
        result.success ≡ false
        → Option.map (λ (c : ToolCall). c.status) (get_tool_call (g.uuid 0) d')
          ≡ some ToolCallStatus.rejected
        → Settled d d' result
    ran :
        Option.map (λ (c : ToolCall). c.status) (get_tool_call (g.uuid 0) d')
          ≡ some (status_of result)
        → Settled d d' result

  -- No tool deletes the row of the call that it serves.
  abbrev pub Retains : Database → Type 0
  Retains d =
      (call : ToolCall) × (get_tool_call (g.uuid 0)
          (execute_tool_impl g policy host agent_run tool_name arguments worktree_path
            (started g policy host agent_run tool_name arguments worktree_path d)).1
        ≡ some call)

  status-update :
      (call row : ToolCall) (d : Database)
      → call.id ≡ g.uuid 0
      → get_tool_call (g.uuid 0) d ≡ some row
      → Option.map (λ (c : ToolCall). c.status) (get_tool_call (g.uuid 0) (update_tool_call call d))
        ≡ some call.status
  unfolding get_tool_call update_tool_call
  status-update call row d same found =
      ap (Option.map (λ (c : ToolCall). c.status))
        (select-modify call_key (write_call call) (λ a. refl) call.id (g.uuid 0) d.tool_calls)
      ∙ rw (same, ==_refl (g.uuid 0), found) refl

  status-create :
      (call : ToolCall) (d : Database)
      → call.id ≡ g.uuid 0
      → get_tool_call (g.uuid 0) d ≡ none
      → Option.map (λ (c : ToolCall). c.status) (get_tool_call (g.uuid 0) (create_tool_call call d))
        ≡ some call.status
  unfolding get_tool_call create_tool_call
  status-create call d same free =
      ap (Option.map (λ (c : ToolCall). c.status))
        (select-append call_key (g.uuid 0) d.tool_calls call free)
      ∙ rw (same, ==_refl (g.uuid 0)) refl

  settle-Settled :
      (d : Database) (r : Result ToolResult) (d' : Database) (row : ToolCall)
      → get_tool_call (g.uuid 0) d' ≡ some row
      → (result : ToolResult) × ((settle g policy host agent_run tool_name arguments worktree_path
            (r, d')).0
          ≡ ok result)
        × Settled d
            (settle g policy host agent_run tool_name arguments worktree_path (r, d')).1
            result
  settle-Settled d (ok result) d' row found = (
    result,
    refl,
    ran (
        status-update (done_call g policy host agent_run tool_name arguments worktree_path result)
          row d' refl found),
  )
  settle-Settled d (raise e) d' row found = (
    _,
    refl,
    ran (
        status-update (failed_call g policy host agent_run tool_name arguments worktree_path e) row
          d' refl found),
  )

  -- A call under a new identifier, whose tool does not delete the row of the call, returns a result
  -- in every case. Either the call was stopped before it was recorded and nothing is stored, or its
  -- row is REJECTED and the result is a failure, or the row is COMPLETED or FAILED as the result says.
  pub execute_tool-Settled :
      (d : Database)
      → get_tool_call (g.uuid 0) d ≡ none
      → Retains d
      → (result : ToolResult) × ((execute_tool g policy host agent_run tool_name arguments
            worktree_path d).0
          ≡ ok result)
        × Settled d
            (execute_tool g policy host agent_run tool_name arguments worktree_path d).1
            result
  unfolding execute_tool
  execute_tool-Settled d free (row, kept) = elim (Option-cases (check_limits policy agent_run)) [
    | inr (reason, over) ↦ rw over (_, refl, stopped refl refl)
    | inl below ↦ elim (Option-cases (required_capability tool_name)) [
      | inl unknown ↦ rw (below, unknown) (_, refl, stopped refl refl)
      | inr (capability, required) ↦ elim (Option-cases (check_capability policy capability)) [
        | inr (reason, refused_is) ↦
            rw (below, required, refused_is)
              (
                _,
                refl,
                denied refl (
                    status-create
                      (new_call g policy host agent_run tool_name arguments worktree_path
                        ToolCallStatus.rejected (some reason))
                      d refl free),
              )
        | inl fine ↦
            rw (below, required, fine)
              (settle-Settled d
                (execute_tool_impl g policy host agent_run tool_name arguments worktree_path
                  (started g policy host agent_run tool_name arguments worktree_path d)).0
                (execute_tool_impl g policy host agent_run tool_name arguments worktree_path
                  (started g policy host agent_run tool_name arguments worktree_path d)).1
                row kept)
      ]
    ]
  ]
