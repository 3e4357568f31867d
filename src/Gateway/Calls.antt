-- ===== src/Gateway/Calls.antt =====
-- `execute_tool`: the policy, the record of the call, and the tool. The repositories are used outside
-- an `async with` block there: their session begins a transaction, which each commit ends.
pub mod Plain
pub mod Safety
pub mod Settled
use aura_automated_user_rag.Base.{
  ℕ, Bool, true, false, String, ◌≟◌, string_eq, Option, none, some, List, [], ◌∷◌, Result, ok,
  raise, Exception, if◌then◌else◌, prefix,
}
use Prim.Native.String.{◌++◌ as append}
use aura_automated_user_rag.Domain.Events.{Ambient, Metadata, text, flag}
use aura_automated_user_rag.Domain.Agents.{AgentCapability}
use aura_automated_user_rag.Domain.Agents.Runs.{AgentRun}
use aura_automated_user_rag.Domain.Agents.Tools.{
  AgentPolicy, is_allowed, check_limits, capability_value, tool_schemas, Output, ToolCall,
  ToolCallStatus, tool_call_status_eq, ToolResult, refused,
}
use aura_automated_user_rag.Store.{Database}
use aura_automated_user_rag.Store.Work.{Script, writes, commit, with_uow, ◌>>◌}
use aura_automated_user_rag.Store.AgentRows.{create_tool_call, update_tool_call}
use aura_automated_user_rag.Gateway.{Host, reported}
use aura_automated_user_rag.Gateway.Files.{read_file, write_file, ask_git}
use aura_automated_user_rag.Gateway.Commands.{run_command, run_tests}

-- `TOOL_SCHEMAS.get(tool_name)`
abbrev pub schema_in : String → List (String × AgentCapability) → Option AgentCapability
schema_in tool_name [] = none
schema_in tool_name ((name, capability) ∷ rest) =
    if name ≟ tool_name then some capability else schema_in tool_name rest

abbrev pub required_capability : String → Option AgentCapability
required_capability tool_name = schema_in tool_name tool_schemas

-- `_check_capability`: none where the capability is allowed, and otherwise the reason.
abbrev pub check_capability : AgentPolicy → AgentCapability → Option String
check_capability policy capability =
    if is_allowed policy capability
    then none
    else some (append "Capability " (append (capability_value capability) " not allowed by policy"))

-- The results of a tool whose value needs no database.
abbrev pub at_rest : Result ToolResult → Script ToolResult
at_rest r d = (r, d)

abbrev pub finished : Host → Result (String × Bool) → Result ToolResult
finished host (raise e) = raise e
finished host (ok (summary, success)) =
    let entries : Metadata = ("summary", text summary) ∷ ("success", flag success) ∷ [] in
    ok (record {
      success = true;
      output = some (record { shown = host.shown entries; truthy = true; entries = some entries });
      error = none;
      metadata = ("finish_task", flag true) ∷ ("success", flag success) ∷ [];
    })

abbrev pub reported_result : Result (Bool × Option Output × Option String) → Result ToolResult
reported_result (ok outcome) = ok (reported outcome)
reported_result (raise e) = raise e

module _ (g : Ambient) (policy : AgentPolicy) (host : Host) (agent_run : AgentRun)
    (tool_name : String) (arguments : Metadata) (worktree_path : String) where
  -- `_execute_tool_impl`
  unfoldable pub execute_tool_impl : Script ToolResult
  execute_tool_impl d =
      if tool_name ≟ "READ_FILE"
      then at_rest (read_file host worktree_path arguments) d
      else if tool_name ≟ "LIST_DIRECTORY"
      then at_rest (reported_result (host.list_directory arguments worktree_path)) d
      else if tool_name ≟ "SEARCH_REPOSITORY"
      then at_rest (reported_result (host.search_repository arguments worktree_path)) d
      else if tool_name ≟ "WRITE_FILE"
      then at_rest (write_file host worktree_path arguments) d
      else if tool_name ≟ "RUN_COMMAND"
      then run_command host worktree_path agent_run arguments d
      else if tool_name ≟ "GET_GIT_STATUS"
      then at_rest (ask_git host worktree_path "status --porcelain" arguments) d
      else if tool_name ≟ "GET_GIT_DIFF"
      then at_rest (ask_git host worktree_path "diff" arguments) d
      else if tool_name ≟ "RUN_TESTS"
      then run_tests host worktree_path agent_run arguments d
      else if tool_name ≟ "FINISH_TASK"
      then at_rest (finished host (host.parse_finish arguments)) d
      else (ok (refused (some (append "Tool " (append tool_name " not implemented")))), d)

  abbrev pub new_call : ToolCallStatus → Option String → ToolCall
  new_call policy_decision policy_reason = record {
    id = g.uuid 0;
    agent_run_id = agent_run.id;
    tool_name = tool_name;
    arguments = arguments;
    policy_decision = policy_decision;
    policy_reason = policy_reason;
    status =
        if policy_decision ≟ ToolCallStatus.allowed
        then ToolCallStatus.allowed
        else ToolCallStatus.rejected;
    started_at = none;
    completed_at = none;
    result_summary = none;
    failure_reason = none;
    created_at = g.now 0;
  }

  -- `_record_tool_call`
  abbrev pub record_tool_call : ToolCall → Database → Database
  record_tool_call call d = (with_uow (writes (create_tool_call call) >> commit) d).1

  abbrev pub write_tool_call : ToolCall → Database → Database
  write_tool_call call d = (with_uow (writes (update_tool_call call) >> commit) d).1

  abbrev pub running_call : ToolCall
  running_call = record (new_call ToolCallStatus.allowed none) {
    status = ToolCallStatus.running;
    started_at = some (g.now 1);
  }

  -- `str(result.output)[:500] if result.output else None`
  abbrev pub summary_of : Option Output → Option String
  summary_of none = none
  summary_of (some output) = if output.truthy then some (prefix 500 output.shown) else none

  abbrev pub done_call : ToolResult → ToolCall
  done_call result = record running_call {
    status = if result.success then ToolCallStatus.completed else ToolCallStatus.failed;
    completed_at = some (g.now 2);
    result_summary = summary_of result.output;
    failure_reason = result.error;
  }

  abbrev pub failed_call : Exception → ToolCall
  failed_call e = record running_call {
    status = ToolCallStatus.failed;
    completed_at = some (g.now 2);
    failure_reason = some (host.str e);
  }

  -- The end of the call, in the `try` and in the `except` clause.
  abbrev pub settle : Result ToolResult × Database → Result ToolResult × Database
  settle (ok result, d) = (ok result, write_tool_call (done_call result) d)
  settle (raise e, d) = (ok (refused (some (host.str e))), write_tool_call (failed_call e) d)

  -- The database in which the tool runs.
  abbrev pub started : Database → Database
  started d =
      write_tool_call running_call (record_tool_call (new_call ToolCallStatus.allowed none) d)

  abbrev pub permitted : Option String → Script ToolResult
  permitted (some reason) d = (
    ok (refused (some reason)),
    record_tool_call (new_call ToolCallStatus.rejected (some reason)) d,
  )
  permitted none d = settle (execute_tool_impl (started d))

  abbrev pub known : Option AgentCapability → Script ToolResult
  known none d = (ok (refused (some (append "Unknown tool: " tool_name))), d)
  known (some capability) d = permitted (check_capability policy capability) d

  abbrev pub limited : Option String → Script ToolResult
  limited (some limit_error) d = (ok (refused (some limit_error)), d)
  limited none d = known (required_capability tool_name) d

  -- `execute_tool`
  unfoldable pub execute_tool : Script ToolResult
  execute_tool d = limited (check_limits policy agent_run) d
