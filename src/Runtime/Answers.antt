-- ===== src/Runtime/Answers.antt =====
-- What an answer of the model does to the counters of a run that is running.
use aura_automated_user_rag.Base.{
  List, raise, data_error, ℕ, ◌+◌, ◌<◌, true, false, String, Option, none, some, [], ◌≡◌, ◌⊎◌, inl,
  inr, refl, arith, leb, ◌≟◌, string_eq, Bool-cases, Result, ok,
}
use aura_automated_user_rag.Domain.Events.{Ambient, shift, null}
use aura_automated_user_rag.Domain.Agents.Runs.{AgentRun, agent_run_status_eq}
use aura_automated_user_rag.Domain.Agents.Tools.{ToolCall, AgentDecision, ToolResult}
use aura_automated_user_rag.Store.{Database}
use aura_automated_user_rag.Gateway.Calls.Plain.{execute_tool-ReturnsPlain}
use aura_automated_user_rag.Runtime.{Runtime, Round}
use aura_automated_user_rag.Runtime.Finish.{complete_run, fail_run, final_summary}
use aura_automated_user_rag.Store.RunRows.{is_text, update_run}
use aura_automated_user_rag.Store.Work.{Script, then_run}
use aura_automated_user_rag.Domain.Tasks.{Task}
use aura_automated_user_rag.Runtime.Outcomes.{Progress, ended, going, as_ended}
use aura_automated_user_rag.Runtime.Loop.{
  keep_going, follow_decision, act, after_tool, after_count, after_failure, counted,
  handle_failed_action, validate_decision,
}
use aura_automated_user_rag.Runtime.Ends.{
  Active, Running, Advance, stops, acts, misses, fail_run-Ends, complete_run-Ends, Running-Active,
}

-- The model has answered a round with FINISH_TASK and a summary that is not a text.
abbrev pub Unstorable : Round → Type 0
Unstorable w =
    (run : AgentRun) × (task : Option Task) × (calls : List ToolCall) × (decision : AgentDecision)
    × (w.generate run task calls ≡ some decision)
    × ((decision.action_type ≟ "FINISH_TASK") ≡ true)
    × (is_text (final_summary decision) ≡ false)

module _ (r : Runtime) (w : Round) where
  -- A round that returns, and what it returns, or one whose answer the database refuses.
  pub data Advances (run : AgentRun) (failures : ℕ) (outcome : Result Progress × Database)
      : Type 0 where
    advanced :
        (p : Progress)
        → outcome.0 ≡ ok p
        → Advance r.agent_policy run failures p
        → Advances run failures outcome
    refused : outcome.0 ≡ raise data_error → Unstorable w → Advances run failures outcome

  pub fail-Advances :
      (g : Ambient) (run run' : AgentRun) (failures : ℕ) (reason : String) (d : Database)
      → Active r.agent_policy run'
      → Advances run failures (as_ended (fail_run g run' reason d))
  fail-Advances g run run' failures reason d active =
      let (last, returns, final, limited_is) =
        fail_run-Ends r.agent_policy g run' d reason active in
      rw returns (advanced (ended last) refl (stops final limited_is))

  -- The model has given the decision to this round.
  abbrev pub Answered : AgentDecision → Type 0
  Answered decision =
      (run : AgentRun) × (task : Option Task) × (calls : List ToolCall) × (w.generate run task calls
        ≡ some decision)

  complete-Advances :
      (g : Ambient) (run : AgentRun) (failures : ℕ) (decision : AgentDecision) (d : Database)
      → Running r.agent_policy run
      → Answered decision
      → (decision.action_type ≟ "FINISH_TASK") ≡ true
      → Advances run failures (as_ended (complete_run g run decision d))
  complete-Advances g run failures decision d running (asked, task, calls, answer) finish =
      elim (complete_run-Ends r.agent_policy g run d decision
        (Running-Active r.agent_policy run running) running.status_is) [
          | inl (last, returns, final, limited_is) ↦
              rw returns (advanced (ended last) refl (stops final limited_is))
          | inr (raises, no_text) ↦
              rw raises (refused refl (asked, task, calls, decision, answer, finish, no_text))
        ]

  counted-Active :
      (run : AgentRun) → Running r.agent_policy run → Active r.agent_policy (counted r w run)
  counted-Active run running = record {
    status_is = inl running.status_is;
    limited = record {
      few_iterations = omega (arith, running.below_iterations);
      few_calls = omega (arith, running.below_calls);
    };
    no_result = running.no_result;
  }

  keep_going-returns :
      (run : AgentRun) (failures : ℕ) (d : Database)
      → run.final_result ≡ null
      → (keep_going r w run failures d).0 ≡ ok (going run failures)
  unfolding update_run
  keep_going-returns run failures d h = rw h refl

  pub then-Advances :
      (run begun : AgentRun) (failures : ℕ) (o : Result AgentRun × Database)
      (f : AgentRun → Script Progress)
      → o.0 ≡ ok begun
      → Advances run failures (f begun o.1)
      → Advances run failures (then_run o f)
  then-Advances run begun failures o f h advances = rw h advances

  after_count-Advances :
      (run : AgentRun) (failures failures' : ℕ) (decision : AgentDecision) (result : ToolResult)
      (d : Database)
      → Running r.agent_policy run
      → result.metadata ≡ []
      → (failures' ≡ 0) ⊎ (failures' < r.agent_policy.max_failed_actions)
      → Advances run failures (after_count r w (counted r w run) decision result failures' d)
  after_count-Advances run failures failures' decision result d running plain few = rw plain (
      advanced (going (counted r w run) failures')
        (keep_going-returns (counted r w run) failures' d running.no_result)
        (acts (counted-Active run running) running.below_iterations refl few))

  after_tool-Advances :
      (run : AgentRun) (failures : ℕ) (decision : AgentDecision) (result : ToolResult)
      (d : Database)
      → Running r.agent_policy run
      → result.metadata ≡ []
      → Advances run failures (after_tool r w (counted r w run) decision failures result d)
  after_tool-Advances run failures decision result d running plain =
      elim (Bool-cases result.success) [
        | inl fine ↦
            rw fine (after_count-Advances run failures 0 decision result d running plain (inl refl))
        | inr wrong ↦ elim (Bool-cases (leb r.agent_policy.max_failed_actions (failures + 1))) [
          | inl many ↦
              rw (wrong, many)
                (fail-Advances (shift 20 w.ambient) run (counted r w run) failures
                  "Too many failed tool calls" d (counted-Active run running))
          | inr few ↦
              rw (wrong, few)
                (after_count-Advances run failures (failures + 1) decision result d running plain
                  (inr (ground arith)))
        ]
      ]

  after_failure-Advances :
      (run run' : AgentRun) (failures : ℕ) (reason : String) (d : Database)
      → Active r.agent_policy run'
      → run'.iteration_count ≡ run.iteration_count
      → Advances run failures (after_failure r w failures reason run' d)
  after_failure-Advances run run' failures reason d active same =
      elim (Bool-cases (leb r.agent_policy.max_failed_actions (failures + 1))) [
        | inl many ↦ rw many (fail-Advances (shift 20 w.ambient) run run' failures reason d active)
        | inr few ↦
            rw few (advanced (going run' (failures + 1)) refl (misses active same (ground arith)))
      ]

  handle_failed_action-returns :
      (run : AgentRun) (reason : String) (d : Database)
      → run.final_result ≡ null
      → (handle_failed_action r w run reason d).0
        ≡ ok (record run { updated_at = w.ambient.now 10 })
  unfolding handle_failed_action update_run
  handle_failed_action-returns run reason d h = rw h refl

  failed_action-Advances :
      (run : AgentRun) (failures : ℕ) (d : Database)
      → Running r.agent_policy run
      → Advances run failures (
          then_run
            (handle_failed_action r w run "Invalid decision schema" d)
            (after_failure r w failures "Too many consecutive failures"))
  failed_action-Advances run failures d running =
      let run' : AgentRun = record run { updated_at = w.ambient.now 10 } in
      let active : Active r.agent_policy run' = record {
        status_is = inl running.status_is;
        limited = record {
          few_iterations = omega (arith, running.below_iterations);
          few_calls = omega (arith, running.below_calls);
        };
        no_result = running.no_result;
      } in
      let returns : (handle_failed_action r w run "Invalid decision schema" d).0 ≡ ok run' =
        handle_failed_action-returns run "Invalid decision schema" d running.no_result in
      rw returns
        (after_failure-Advances run run' failures "Too many consecutive failures" _ active refl)

  pub act-Advances :
      (run : AgentRun) (failures : ℕ) (decision : AgentDecision) (d : Database)
      → Running r.agent_policy run
      → Answered decision
      → Advances run failures (act r w run failures decision d)
  act-Advances run failures decision d running answered =
      elim (Bool-cases (decision.action_type ≟ "FINISH_TASK")) [
        | inl finish ↦
            rw finish (
              complete-Advances (shift 20 w.ambient) run failures decision d running answered
                finish)
        | inr other ↦ elim (Bool-cases (validate_decision r w decision)) [
          | inr invalid ↦ rw (other, invalid) (failed_action-Advances run failures d running)
          | inl valid ↦
              let (result, returns, plain) =
                execute_tool-ReturnsPlain (shift 40 w.ambient) r.agent_policy w.host run
                  decision.action_type decision.arguments r.worktree_path d other in
              rw (other, valid, returns)
                (after_tool-Advances run failures decision result _ running plain)
        ]
      ]

  pub follow_decision-Advances :
      (run : AgentRun) (failures : ℕ) (decision : Option AgentDecision) (d : Database)
      → Running r.agent_policy run
      → ((found : AgentDecision) → decision ≡ some found → Answered found)
      → Advances run failures (follow_decision r w failures run decision d)
  follow_decision-Advances run failures none d running answered =
      fail-Advances (shift 20 w.ambient) run run failures "Failed to get agent decision" d
        (Running-Active r.agent_policy run running)
  follow_decision-Advances run failures (some decision) d running answered =
      act-Advances run failures decision d running (answered decision refl)
