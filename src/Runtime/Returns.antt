-- ===== src/Runtime/Returns.antt =====
-- The loop ends within the rounds that the policy allows.
use aura_automated_user_rag.Base.{
  ℕ, suc, ◌+◌, ◌*◌, ◌≤◌, ◌<◌, true, false, Bool-cases, Option, some, ◌≡◌, ◌⊎◌, ◌∙◌, inl, inr, refl,
  ap, arith, Result, ok, raise, data_error, integrity_error,
}
use aura_automated_user_rag.Domain.Events.{Ambient, shift, null}
use aura_automated_user_rag.Domain.Tasks.{TaskStatus}
use aura_automated_user_rag.Domain.Agents.Runs.{AgentRun, AgentRunStatus, transition}
use aura_automated_user_rag.Store.{Database}
use aura_automated_user_rag.Store.Work.{Script, then_run}
use aura_automated_user_rag.Store.RunRows.{references_met, refuses, create_run, update_run}
use aura_automated_user_rag.Runtime.{Runtime, Round}
use aura_automated_user_rag.Runtime.Finish.{fail_run, failed_run, replaced}
use aura_automated_user_rag.Runtime.Tasks.{record_end-tasks}
use aura_automated_user_rag.Runtime.Loop.{round, loop, enough, start, run, created_run, ready_run}
use aura_automated_user_rag.Runtime.Ends.{Final, Limited, Active}
use aura_automated_user_rag.Runtime.Answers.{Unstorable}

-- The end of a late run that is still READY.
late_failure :
    (g : Ambient) (run : AgentRun) (d : Database)
    → run.status ≡ AgentRunStatus.ready
    → run.final_result ≡ null
    → (last : AgentRun) × ((fail_run g run "Runtime timeout exceeded" d).0 ≡ ok last)
      × (last.status ≡ AgentRunStatus.ready)
      × (last.failure_reason ≡ some "Runtime timeout exceeded")
unfolding fail_run transition
late_failure g run d is_ready no_result =
    let done = failed_run g run "Runtime timeout exceeded" in
    let taken : refuses done d ≡ false = rw (is_ready, no_result) refl in
    (
      done,
      ap (replaced done) (record_end-tasks g TaskStatus.failed done _ _ _ d taken).0,
      rw is_ready refl,
      refl,
    )

module _ (r : Runtime) (rounds : ℕ → Round) where
  -- The loop has returned a run that has ended within the limits of the policy, or the database has
  -- refused an answer of the model.
  pub data Returns (outcome : Result (Option AgentRun) × Database) : Type 0 where
    returned :
        (last : AgentRun)
        → outcome.0 ≡ ok (some last)
        → Final last
        → Limited r.agent_policy last
        → Returns outcome
    rejected : (k : ℕ) → Unstorable (rounds k) → outcome.0 ≡ raise data_error → Returns outcome

  -- The rounds that a run may still take, `left` iterations below the maximum.
  abbrev pub budget : ℕ → ℕ
  budget left = left * (r.agent_policy.max_failed_actions + 1) + r.agent_policy.max_failed_actions

  -- A rest of the loop that returns wherever `fuel` rounds are enough.
  abbrev pub Enough : ℕ → (AgentRun → ℕ → Script (Option AgentRun)) → Type 0
  Enough fuel rest =
      (left failures : ℕ) (agent_run : AgentRun) (d : Database)
      → Active r.agent_policy agent_run
      → r.agent_policy.max_iterations ≤ agent_run.iteration_count + left
      → (failures ≡ 0) ⊎ (failures < r.agent_policy.max_failed_actions)
      → budget left < fuel + failures
      → Returns (rest agent_run failures d)

  -- What `start` gives: the table refuses the run that it creates, or the run is READY.
  abbrev Started : Ambient → Database → Result AgentRun × Database → Type 0
  Started g d outcome =
      ((references_met (created_run r rounds g d) d ≡ false)
        × (outcome ≡ (raise integrity_error, d)))
      ⊎ ((references_met (created_run r rounds g d) d ≡ true)
          × (outcome.0 ≡ ok (ready_run r rounds g (created_run r rounds g d))))

  start-Started : (g : Ambient) (d : Database) → Started g d (start r rounds g d)
  unfolding create_run update_run transition
  start-Started g d = elim (Bool-cases (references_met (created_run r rounds g d) d)) [
    | inl met ↦ inr (met, rw met refl)
    | inr unmet ↦ inl (unmet, rw unmet refl)
  ]

  late-loop :
      (fuel : ℕ) (agent_run : AgentRun) (d : Database)
      → agent_run.status ≡ AgentRunStatus.ready
      → agent_run.final_result ≡ null
      → (rounds 0).is_late ≡ true
      → (last : AgentRun) × ((loop r rounds (suc fuel) 0 agent_run 0 d).0 ≡ ok (some last))
        × (last.status ≡ AgentRunStatus.ready)
        × (last.failure_reason ≡ some "Runtime timeout exceeded")
  unfolding loop round
  late-loop fuel agent_run d is_ready no_result late =
      let (last, returns, same, reason) =
        late_failure (shift 20 (rounds 0).ambient) agent_run d is_ready no_result in
      (last, rw (late, returns) refl, same, reason)

  then_run-ok :
      (o : Result AgentRun × Database) (a : AgentRun) (f : AgentRun → Script (Option AgentRun))
      → o.0 ≡ ok a
      → then_run o f ≡ f a o.1
  then_run-ok o a f h = rw h refl

  -- A run that is past its time before it begins returns, if the rows that it refers to are there,
  -- with the reason for its failure but the status READY, since READY does not lead to FAILED.
  pub run-late :
      (g : Ambient) (d : Database)
      → references_met (created_run r rounds g d) d ≡ true
      → (rounds 0).is_late ≡ true
      → (last : AgentRun) × ((run r rounds g d).0 ≡ ok (some last))
        × (last.status ≡ AgentRunStatus.ready)
        × (last.failure_reason ≡ some "Runtime timeout exceeded")
  unfolding run transition
  run-late g d met late = elim (start-Started g d) [
    | inl (unmet, _) ↦ absurd (cc)
    | inr (_, starts) ↦
        let ready : AgentRun = ready_run r rounds g (created_run r rounds g d) in
        let fuel = budget r.agent_policy.max_iterations in
        let enough_is : enough r rounds ≡ suc fuel = omega arith in
        let (last, returns, same, reason) =
          late-loop fuel ready (start r rounds g d).1 refl refl late in
        (
          last,
          ap (λ (o : Result (Option AgentRun) × Database). o.0)
                (then_run-ok (start r rounds g d) ready (λ a. loop r rounds (enough r rounds) 0 a 0)
                  starts)
              ∙ ap (λ n. (loop r rounds n 0 ready 0 (start r rounds g d).1).0) enough_is
              ∙ returns,
          same,
          reason,
        )
  ]
