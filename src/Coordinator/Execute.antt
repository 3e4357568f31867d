-- ===== src/Coordinator/Execute.antt =====
-- `execute_claimed`. The environment, the agent and the verification are what the factories of the
-- coordinator make: arguments here. Each also stands for what others do to the database meanwhile,
-- the coordinator's own heartbeats among them.
pub mod Ownership
pub mod Samples
use aura_automated_user_rag.Base.{
  ℕ, Bool, true, String, ◌≟◌, string_eq, Option, none, some, Result, ok, raise, Exception,
  stale_ownership_error, runtime_error, if◌then◌else◌,
}
use Prim.Native.String.{◌++◌ as append}
use aura_automated_user_rag.Domain.Events.{Ambient, shift}
use aura_automated_user_rag.Domain.Missions.{Mission}
use aura_automated_user_rag.Domain.Tasks.{Task, TaskExecution}
use aura_automated_user_rag.Domain.Workers.{TaskLease}
use aura_automated_user_rag.Domain.Executions.{ExecutionEnvironment}
use aura_automated_user_rag.Domain.Agents.Runs.{AgentRun}
use aura_automated_user_rag.Store.{Database}
use aura_automated_user_rag.Store.Work.{Script, then_run}
use aura_automated_user_rag.Store.Rows.{get_mission_row}
use aura_automated_user_rag.Coordinator.{Coordinator}
use aura_automated_user_rag.Coordinator.Lease.{assert_ownership}
use aura_automated_user_rag.Coordinator.Finish.{complete_task, fail_task}

-- The services, and `str(exc)`. A verification is its success and the reason for a failure.
pub record Services : Type 0 where
  pub create_environment : Task → TaskExecution → Mission → Script ExecutionEnvironment
  pub run_agent : Task → TaskExecution → Mission → String → Script AgentRun
  pub verify : Task → TaskExecution → Mission → AgentRun → String → Script (Bool × Option String)
  pub str : Exception → String

-- `f"Verification failed: {verification.failure_reason or 'checks failed'}"`
abbrev pub failed_checks : Option String → String
failed_checks none = "Verification failed: checks failed"
failed_checks (some reason) =
    append "Verification failed: " (if reason ≟ "" then "checks failed" else reason)

module _ (g : Ambient) (c : Coordinator) (services : Services) (task : Task)
    (execution : TaskExecution) (lease : TaskLease) where
  -- The last step: `_complete_task`, or `_fail_task` after checks that failed.
  abbrev pub conclude : AgentRun → Bool × Option String → Script (Unit {0})
  conclude agent_run (success, failure_reason) d =
      if success
      then complete_task (shift 20 g) c task execution lease agent_run.id d
      else fail_task (shift 20 g) c task execution lease (failed_checks failure_reason) true d

  abbrev pub check_and_conclude : Mission → AgentRun → String → Script (Unit {0})
  check_and_conclude mission agent_run worktree_path d =
      then_run (services.verify task execution mission agent_run worktree_path d) λ verification d'.
        then_run (assert_ownership (shift 10 g) c lease.id d')
          λ _ d''. conclude agent_run verification d''

  abbrev pub after_run : Mission → String → AgentRun → Script (Unit {0})
  after_run mission worktree_path agent_run d =
      then_run (assert_ownership g c lease.id d)
        λ _ d'. check_and_conclude mission agent_run worktree_path d'

  abbrev pub work_in : Mission → Option String → Script (Unit {0})
  work_in mission none d = (raise (runtime_error "Execution environment has no worktree"), d)
  work_in mission (some worktree_path) d =
      if worktree_path ≟ ""
      then (raise (runtime_error "Execution environment has no worktree"), d)
      else then_run (services.run_agent task execution mission worktree_path d)
          (after_run mission worktree_path)

  abbrev pub work_on : Option Mission → Script (Unit {0})
  work_on none d = (raise (runtime_error "Mission not found"), d)
  work_on (some mission) d =
      then_run (services.create_environment task execution mission d)
        λ env d'. work_in mission env.worktree_path d'

  -- The `except` clauses.
  abbrev pub handle : Result (Unit {0}) × Database → Result (Unit {0}) × Database
  handle (ok done, d) = (ok done, d)
  handle (raise stale_ownership_error, d) = (raise stale_ownership_error, d)
  handle (raise e, d) = fail_task (shift 40 g) c task execution lease (services.str e) true d

  -- `execute_claimed`
  unfoldable pub execute_claimed : Script (Unit {0})
  execute_claimed d = handle (work_on (get_mission_row c.mission_id d) d)
