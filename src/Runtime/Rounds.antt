-- ===== src/Runtime/Rounds.antt =====
-- What a round does to the counters of a run.
use aura_automated_user_rag.Base.{
  ap, ◌∙◌, ℕ, Bool, true, false, String, Option, none, some, ◌≡◌, inl, inr, refl, arith, string_eq,
  Result, ok, if◌then◌else◌,
}
use aura_automated_user_rag.Domain.Events.{shift}
use aura_automated_user_rag.Domain.Agents.Runs.{
  AgentRun, AgentRunStatus, agent_run_status_eq, transition,
}
use aura_automated_user_rag.Domain.Agents.Tools.{AgentDecision, check_limits}
use aura_automated_user_rag.Store.{Database}
use aura_automated_user_rag.Gateway.Calls.Safety.{check_limits-below}
use aura_automated_user_rag.Runtime.{Runtime, Round}
use aura_automated_user_rag.Runtime.Finish.{fail_run}
use aura_automated_user_rag.Store.RunRows.{update_run}
use aura_automated_user_rag.Store.TaskRows.{get_task}
use aura_automated_user_rag.Runtime.Outcomes.{Progress, as_ended}
use aura_automated_user_rag.Runtime.Loop.{
  round, begin_run, save_started, decide, get_agent_decision, limited,
}
use aura_automated_user_rag.Runtime.Ends.{Active, Running, Advance, stops, acts, misses}
use aura_automated_user_rag.Runtime.Answers.{
  Advances, advanced, refused, Answered, fail-Advances, then-Advances, follow_decision-Advances,
}

module _ (r : Runtime) (w : Round) where
  -- The run as it is when the model is asked for a decision.
  abbrev Begun : AgentRun → Result AgentRun × Database → Type 0
  Begun run outcome =
      (begun : AgentRun) × (outcome.0 ≡ ok begun)
      × Running r.agent_policy begun
      × (begun.iteration_count ≡ run.iteration_count)

  save_started-Begun :
      (run : AgentRun) (d : Database)
      → Running r.agent_policy run
      → (old : AgentRun) → Begun run (save_started r w (ok run) old d)
  unfolding update_run
  save_started-Begun run d running old =
      let run' : AgentRun = record run { started_at = some (w.ambient.now 1) } in
      (
        run',
        rw running.no_result refl,
        record {
          status_is = running.status_is;
          below_iterations = running.below_iterations;
          below_calls = running.below_calls;
          no_result = running.no_result;
        },
        refl,
      )

  begin_run-ready :
      (run : AgentRun) (d : Database)
      → run.status ≡ AgentRunStatus.ready
      → begin_run r w run d
        ≡ save_started r w
            (ok (record run { status = AgentRunStatus.running; updated_at = w.ambient.now 0 }))
            run
            d
  unfolding transition
  begin_run-ready run d h = rw h refl

  begin_run-Begun :
      (run : AgentRun) (d : Database)
      → Active r.agent_policy run
      → check_limits r.agent_policy run ≡ none
      → Begun run (begin_run r w run d)
  begin_run-Begun run d active below =
      let (iterations, calls) = check_limits-below r.agent_policy run below in
      elim active.status_is [
        | inl h ↦ (
          run,
          rw h refl,
          record {
            status_is = h;
            below_iterations = iterations;
            below_calls = calls;
            no_result = active.no_result;
          },
          refl,
        )
        | inr (h, none_yet) ↦
            let moved : AgentRun = record run {
              status = AgentRunStatus.running;
              updated_at = w.ambient.now 0;
            } in
            let (begun, returns, running, same) =
              save_started-Begun moved d
                (record {
                  status_is = refl;
                  below_iterations = iterations;
                  below_calls = calls;
                  no_result = active.no_result;
                })
                run in
            (begun, ap (λ o. o.0) (begin_run-ready run d h) ∙ returns, running, same)
      ]

  Advance-same :
      (run run' : AgentRun) (failures : ℕ) (p : Progress)
      → run'.iteration_count ≡ run.iteration_count
      → Advance r.agent_policy run' failures p
      → Advance r.agent_policy run failures p
  Advance-same run run' failures _ same (stops final limited_is) = stops final limited_is
  Advance-same run run' failures _ same (acts active fewer next few) =
      acts active (omega (arith, same, fewer)) (omega (arith, same, next)) few
  Advance-same run run' failures _ same (misses active kept few) =
      misses active (omega (arith, same, kept)) few

  Advances-same :
      (run run' : AgentRun) (failures : ℕ) (outcome : Result Progress × Database)
      → run'.iteration_count ≡ run.iteration_count
      → Advances r w run' failures outcome
      → Advances r w run failures outcome
  Advances-same run run' failures outcome same (advanced p returns advance) =
      advanced p returns (Advance-same run run' failures p same advance)
  Advances-same run run' failures outcome same (refused raises unstorable) =
      refused raises unstorable

  answered :
      (run : AgentRun) (d : Database) (decision : AgentDecision)
      → get_agent_decision r w run d ≡ some decision
      → Answered r w decision
  unfolding get_agent_decision
  answered run d decision h = (run, get_task run.task_id d, _, h)

  checked-Advances :
      (late : Bool) (limit_error : Option String) (run : AgentRun) (failures : ℕ) (d : Database)
      → check_limits r.agent_policy run ≡ limit_error
      → Active r.agent_policy run
      → Advances r w run failures (
          if late
          then as_ended (fail_run (shift 20 w.ambient) run "Runtime timeout exceeded" d)
          else limited r w run failures limit_error d)
  checked-Advances true limit_error run failures d h active =
      fail-Advances r w (shift 20 w.ambient) run run failures "Runtime timeout exceeded" d active
  checked-Advances false (some reason) run failures d h active =
      fail-Advances r w (shift 20 w.ambient) run run failures reason d active
  checked-Advances false none run failures d below active =
      let (begun, returns, running, same) = begin_run-Begun run d active below in
      let d' = (begin_run r w run d).1 in
      then-Advances r w run begun failures (begin_run r w run d) (decide r w failures) returns (
        Advances-same run begun failures (decide r w failures begun d') same (
          follow_decision-Advances r w begun failures (get_agent_decision r w begun d') d' running
            (answered begun d')))

  -- A round of a run that is active returns, if the database takes its answer: the run ends, or it goes on with one more iteration
  -- and a number of failures in a row that is 0 or below the maximum, or it goes on with one more
  -- failure in a row, still below the maximum.
  pub round-Advance :
      (run : AgentRun) (failures : ℕ) (d : Database)
      → Active r.agent_policy run
      → Advances r w run failures (round r w run failures d)
  unfolding round
  round-Advance run failures d active =
      checked-Advances w.is_late (check_limits r.agent_policy run) run failures d refl active
