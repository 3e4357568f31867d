-- ===== src/Runtime/Ends.antt =====
-- How a run can end, and the bounds on its counters until then.
use aura_automated_user_rag.Base.{
  ap, false, true, Bool-cases, Result, ok, raise, data_error, ℕ, ◌+◌, ◌≤◌, ◌<◌, String, ◌≡◌, ◌⊎◌,
  inl, inr, refl, arith, string_eq,
}
use aura_automated_user_rag.Domain.Events.{Ambient, null}
use aura_automated_user_rag.Domain.Agents.Runs.{
  AgentRun, AgentRunStatus, agent_run_status_eq, transition,
}
use aura_automated_user_rag.Domain.Agents.Tools.{AgentPolicy, AgentDecision}
use aura_automated_user_rag.Store.{Database}
use aura_automated_user_rag.Runtime.Finish.{
  complete_run, fail_run, completed_run, failed_run, replaced, final_summary,
}
use aura_automated_user_rag.Runtime.Tasks.{record_end-tasks, record_end-refused}
use aura_automated_user_rag.Store.RunRows.{is_text, refuses}
use aura_automated_user_rag.Domain.Tasks.{TaskStatus}
use aura_automated_user_rag.Runtime.Outcomes.{Progress, ended, going}

-- A run that has ended: COMPLETED or FAILED, or still READY if it was never asked for a decision.
pub data Final (run : AgentRun) : Type 0 where
  completed : run.status ≡ AgentRunStatus.completed → Final run
  failed : run.status ≡ AgentRunStatus.failed → Final run
  unstarted : run.status ≡ AgentRunStatus.ready → run.iteration_count ≡ 0 → Final run

module _ (policy : AgentPolicy) where
  -- The counters of a run within the limits.
  pub record Limited (run : AgentRun) : Type 0 where
    pub few_iterations : run.iteration_count ≤ policy.max_iterations
    pub few_calls : run.tool_call_count ≤ policy.max_tool_calls

  -- A run that has just begun or is running, with its counters within the limits and no result yet.
  pub record Active (run : AgentRun) : Type 0 where
    pub status_is :
        (run.status ≡ AgentRunStatus.running)
        ⊎ ((run.status ≡ AgentRunStatus.ready) × (run.iteration_count ≡ 0))
    pub limited : Limited run
    pub no_result : run.final_result ≡ null

  -- A run that is running, below the limits.
  pub record Running (run : AgentRun) : Type 0 where
    pub status_is : run.status ≡ AgentRunStatus.running
    pub below_iterations : run.iteration_count < policy.max_iterations
    pub below_calls : run.tool_call_count < policy.max_tool_calls
    pub no_result : run.final_result ≡ null

  -- What a round makes of a run and of the failures in a row.
  pub data Advance (run : AgentRun) (failures : ℕ) : Progress → Type 0 where
    stops : {run' : AgentRun} → Final run' → Limited run' → Advance run failures (ended run')
    acts :
        {run' : AgentRun} {failures' : ℕ}
        → Active run'
        → run.iteration_count < policy.max_iterations
        → run'.iteration_count ≡ run.iteration_count + 1
        → (failures' ≡ 0) ⊎ (failures' < policy.max_failed_actions)
        → Advance run failures (going run' failures')
    misses :
        {run' : AgentRun}
        → Active run'
        → run'.iteration_count ≡ run.iteration_count
        → failures + 1 < policy.max_failed_actions
        → Advance run failures (going run' (failures + 1))

  -- The method has returned a run that has ended within the limits.
  abbrev pub Ends : Result AgentRun × Database → Type 0
  Ends outcome = (last : AgentRun) × (outcome.0 ≡ ok last) × Final last × Limited last

module _ (policy : AgentPolicy) (g : Ambient) (run : AgentRun) (d : Database) where
  failed_run-Final :
      (reason : String)
      → Active policy run
      → Final (failed_run g run reason)
        × Limited policy (failed_run g run reason)
        × ((failed_run g run reason).final_result ≡ null)
  unfolding transition
  failed_run-Final reason active = elim active.status_is [
    | inl h ↦ rw h (
      failed refl,
      record {
        few_iterations = active.limited.few_iterations;
        few_calls = active.limited.few_calls;
      },
      active.no_result,
    )
    | inr (h, none_yet) ↦ rw h (
      unstarted refl none_yet,
      record {
        few_iterations = active.limited.few_iterations;
        few_calls = active.limited.few_calls;
      },
      active.no_result,
    )
  ]

  pub fail_run-Ends : (reason : String) → Active policy run → Ends policy (fail_run g run reason d)
  unfolding fail_run
  fail_run-Ends reason active =
      let done = failed_run g run reason in
      let (final, limited, no_result) = failed_run-Final reason active in
      let taken : refuses done d ≡ false = rw no_result refl in
      (
        done,
        ap (replaced done) (record_end-tasks g TaskStatus.failed done _ _ _ d taken).0,
        final,
        limited,
      )

  completed_run-Final :
      (decision : AgentDecision)
      → Active policy run
      → run.status ≡ AgentRunStatus.running
      → Final (completed_run g run decision) × Limited policy (completed_run g run decision)
  unfolding transition
  completed_run-Final decision active h = rw h (
    completed refl,
    record { few_iterations = active.limited.few_iterations; few_calls = active.limited.few_calls },
  )

  -- A run completes, unless the summary of the decision is not a text.
  pub complete_run-Ends :
      (decision : AgentDecision)
      → Active policy run
      → run.status ≡ AgentRunStatus.running
      → Ends policy (complete_run g run decision d)
        ⊎ (((complete_run g run decision d).0 ≡ raise data_error)
            × (is_text (final_summary decision) ≡ false))
  unfolding complete_run
  complete_run-Ends decision active h =
      let done = completed_run g run decision in
      let (final, limited) = completed_run-Final decision active h in
      elim (Bool-cases (refuses done d)) [
        | inr taken ↦ inl (
          done,
          ap (replaced done) (record_end-tasks g TaskStatus.succeeded done _ _ _ d taken).0,
          final,
          limited,
        )
        | inl not_taken ↦ inr (
          ap (λ (o : Result (Unit {0}) × Database). replaced done o.0)
              (record_end-refused g TaskStatus.succeeded done _ _ _ d not_taken),
          elim (Bool-cases (is_text (final_summary decision))) [
            | inr no_text ↦ no_text
            | inl fine ↦ let bad : false ≡ true = rw fine at not_taken in absurd (cc)
          ],
        )
      ]

pub Running-Active :
    (policy : AgentPolicy) (run : AgentRun) → Running policy run → Active policy run
Running-Active policy run running = record {
  status_is = inl running.status_is;
  limited = record {
    few_iterations = omega (arith, running.below_iterations);
    few_calls = omega (arith, running.below_calls);
  };
  no_result = running.no_result;
}
