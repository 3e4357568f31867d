-- ===== src/Runtime/Loop.antt =====
-- `run`: its start, one round of its loop, and the loop on fuel.
use aura_automated_user_rag.Base.{
  ℕ, zero, suc, ◌+◌, ◌*◌, Bool, true, false, String, ◌≟◌, string_eq, elem, leb, not, if◌then◌else◌,
  Option, none, some, [], ◌∷◌, filter, Result, ok, raise, get_or,
}
use aura_automated_user_rag.Domain.Events.{
  Ambient, shift, new_event, Metadata, lookup, text, ident, null,
}
use aura_automated_user_rag.Domain.Tasks.{Task}
use aura_automated_user_rag.Domain.Agents.{type_value}
use aura_automated_user_rag.Domain.Agents.Runs.{
  AgentRun, AgentRunStatus, agent_run_status_eq, transition,
}
use aura_automated_user_rag.Domain.Agents.Tools.{
  AgentDecision, tool_call_status_eq, ToolResult, check_limits, action_types,
}
use aura_automated_user_rag.Store.{Database}
use aura_automated_user_rag.Store.Work.{Script, then_run, Uow, writes, commit, with_uow, ◌>>◌}
use aura_automated_user_rag.Store.TaskRows.{get_task}
use aura_automated_user_rag.Store.Rows.{append_event}
use aura_automated_user_rag.Store.RunRows.{create_run, update_run}
use aura_automated_user_rag.Store.AgentRows.{calls_of_run}
use aura_automated_user_rag.Gateway.Calls.{execute_tool}
use aura_automated_user_rag.Runtime.{Runtime, Round}
use aura_automated_user_rag.Runtime.Finish.{returning, complete_run, fail_run}
use aura_automated_user_rag.Runtime.Outcomes.{
  Progress, ended, going, as_ended, truth, failure_summary, is_over, last,
}

module _ (r : Runtime) where
  module _ (w : Round) where
    -- `_get_agent_decision`
    unfoldable pub get_agent_decision : AgentRun → Database → Option AgentDecision
    get_agent_decision run d =
        w.generate run (get_task run.task_id d) (last 10 (filter is_over (calls_of_run run.id d)))

    -- `_validate_decision`
    unfoldable pub validate_decision : AgentDecision → Bool
    validate_decision decision = elem decision.action_type action_types

    abbrev pub agent_event : ℕ → String → AgentRun → Metadata → Uow (Unit {0})
    agent_event k event_type run metadata = writes (
        append_event (
          new_event w.ambient k event_type run.mission_id (some run.task_id) (some run.agent_id)
            metadata))

    -- `_handle_failed_action`
    unfoldable pub handle_failed_action : AgentRun → String → Script AgentRun
    handle_failed_action run reason d =
        let run' : AgentRun = record run { updated_at = w.ambient.now 10 } in
        returning run' (
          with_uow
            (update_run run'
              >> (agent_event 11 "agent.action.failed" run'
                    (("agent_run_id", ident run'.id) ∷ ("reason", text reason) ∷ [])
                  >> commit))
            d)

    abbrev pub save_started : Result AgentRun → AgentRun → Script AgentRun
    save_started (raise _) run d = (ok run, d)
    save_started (ok running) run d =
        let run' : AgentRun = record running { started_at = some (w.ambient.now 1) } in
        returning run' (
          with_uow
            (update_run run'
              >> (agent_event 2 "agent.run.started" run' (("agent_run_id", ident run'.id) ∷ [])
                  >> commit))
            d)

    -- The transition to RUNNING.
    abbrev pub begin_run : AgentRun → Script AgentRun
    begin_run run d =
        if run.status ≟ AgentRunStatus.ready
        then save_started (transition (w.ambient.now 0) run AgentRunStatus.running) run d
        else (ok run, d)

    -- A failed action counts, and too many of them in a row end the run.
    abbrev pub after_failure : ℕ → String → AgentRun → Script Progress
    after_failure failures reason run d =
        if leb r.agent_policy.max_failed_actions (failures + 1)
        then as_ended (fail_run (shift 20 w.ambient) run reason d)
        else (ok (going run (failures + 1)), d)

    abbrev pub counted : AgentRun → AgentRun
    counted run = record run {
      iteration_count = run.iteration_count + 1;
      tool_call_count = run.tool_call_count + 1;
      updated_at = w.ambient.now 12;
    }

    abbrev pub fail_with : AgentRun → Result String → Script Progress
    fail_with run (raise e) d = (raise e, d)
    fail_with run (ok reason) d = as_ended (fail_run (shift 20 w.ambient) run reason d)

    abbrev pub keep_going : AgentRun → ℕ → Script Progress
    keep_going run failures d =
        then_run (with_uow (update_run run >> commit) d) (λ _ d'. (ok (going run failures), d'))

    -- From the check of `finish_task` on.
    abbrev pub after_count : AgentRun → AgentDecision → ToolResult → ℕ → Script Progress
    after_count run decision result failures d =
        if truth false (lookup "finish_task" result.metadata)
        then (if truth true (lookup "success" result.metadata)
            then as_ended (complete_run (shift 20 w.ambient) run decision d)
            else fail_with run (failure_summary result.output) d)
        else keep_going run failures d

    abbrev pub after_tool : AgentRun → AgentDecision → ℕ → ToolResult → Script Progress
    after_tool run decision failures result d =
        if result.success
        then after_count run decision result 0 d
        else if leb r.agent_policy.max_failed_actions (failures + 1)
        then as_ended (fail_run (shift 20 w.ambient) run "Too many failed tool calls" d)
        else after_count run decision result (failures + 1) d

    abbrev pub act : AgentRun → ℕ → AgentDecision → Script Progress
    act run failures decision d =
        if decision.action_type ≟ "FINISH_TASK"
        then as_ended (complete_run (shift 20 w.ambient) run decision d)
        else if not (validate_decision decision)
        then then_run (handle_failed_action run "Invalid decision schema" d)
            (after_failure failures "Too many consecutive failures")
        else then_run
            (execute_tool (shift 40 w.ambient) r.agent_policy w.host run decision.action_type
              decision.arguments r.worktree_path d)
            (after_tool (counted run) decision failures)

    abbrev pub follow_decision : ℕ → AgentRun → Option AgentDecision → Script Progress
    follow_decision failures run none d =
        as_ended (fail_run (shift 20 w.ambient) run "Failed to get agent decision" d)
    follow_decision failures run (some decision) d = act run failures decision d

    abbrev pub decide : ℕ → AgentRun → Script Progress
    decide failures run d = follow_decision failures run (get_agent_decision run d) d

    abbrev pub limited : AgentRun → ℕ → Option String → Script Progress
    limited run failures (some limit_error) d =
        as_ended (fail_run (shift 20 w.ambient) run limit_error d)
    limited run failures none d = then_run (begin_run run d) (decide failures)

    -- One round of the loop.
    unfoldable pub round : AgentRun → ℕ → Script Progress
    round run failures d =
        if w.is_late
        then as_ended (fail_run (shift 20 w.ambient) run "Runtime timeout exceeded" d)
        else limited run failures (check_limits r.agent_policy run) d

  abbrev pub resume :
      (AgentRun → ℕ → Script (Option AgentRun)) → Progress → Script (Option AgentRun)
  resume rest (ended run) d = (ok (some run), d)
  resume rest (going run failures) d = rest run failures d

  module _ (rounds : ℕ → Round) where
    -- `while True`: none where the fuel runs out before the loop ends.
    unfoldable pub loop : ℕ → ℕ → AgentRun → ℕ → Script (Option AgentRun)
    loop zero k run failures d = (ok none, d)
    loop (suc fuel) k run failures d =
        then_run (round (rounds k) run failures d) (resume (loop fuel (suc k)))

    -- As many rounds as the limits of the policy allow.
    abbrev pub enough : ℕ
    enough =
        r.agent_policy.max_iterations * (r.agent_policy.max_failed_actions + 1)
        + r.agent_policy.max_failed_actions
        + 1

    module _ (g : Ambient) where
      abbrev pub mission_of_task : Option Task → ℕ
      mission_of_task none = 0
      mission_of_task (some task) = task.mission_id

      abbrev pub created_run : Database → AgentRun
      created_run d = record {
        id = g.uuid 0;
        mission_id = mission_of_task (get_task r.task_id d);
        task_id = r.task_id;
        task_execution_id = r.task_execution_id;
        agent_id = r.agent_id;
        status = AgentRunStatus.created;
        iteration_count = 0;
        tool_call_count = 0;
        max_iterations = r.agent_policy.max_iterations;
        max_tool_calls = r.agent_policy.max_tool_calls;
        max_runtime_seconds = r.agent_policy.max_runtime_seconds;
        max_failed_actions = r.agent_policy.max_failed_actions;
        started_at = none;
        completed_at = none;
        failure_reason = none;
        final_result = null;
        created_at = g.now 0;
        updated_at = g.now 1;
      }

      abbrev pub ready_run : AgentRun → AgentRun
      ready_run run = get_or (transition (g.now 2) run AgentRunStatus.ready) run

      -- The report of the run that was created.
      abbrev pub report_created : AgentRun → Script AgentRun
      report_created ready d = returning ready (
          with_uow
            (update_run ready
              >> (writes (
                    append_event (
                      new_event g 3 "agent.run.created" ready.mission_id (some r.task_id)
                        (some r.agent_id)
                        (("agent_run_id", ident ready.id)
                          ∷ ("agent_type", text (type_value r.agent.agent_type))
                          ∷ [])))
                  >> commit))
            d)

      -- The run that is created and reported before the loop, and the database by then.
      abbrev pub start : Script AgentRun
      start d =
          let run = created_run d in
          then_run (with_uow (create_run run >> commit) d) (λ _. report_created (ready_run run))

      -- `run`
      unfoldable pub run : Script (Option AgentRun)
      run d = then_run (start d) (λ ready. loop enough 0 ready 0)
