-- ===== src/Attempts/Runs.antt =====
-- Any sequence of operations, by any number of schedulers, workers and clients.
use aura_automated_user_rag.Base.{ℕ, ◌<◌, Bool, String, ◌≡◌}
use aura_automated_user_rag.Domain.Events.{Ambient}
use aura_automated_user_rag.Domain.Tasks.{Task, TaskExecution}
use aura_automated_user_rag.Domain.Workers.{TaskLease}
use aura_automated_user_rag.Domain.Agents.Runs.{AgentRun}
use aura_automated_user_rag.Domain.Agents.Tools.{AgentDecision}
use aura_automated_user_rag.Store.{Database}
use aura_automated_user_rag.Scheduler.{schedule_ready_tasks}
use aura_automated_user_rag.Coordinator.{Coordinator}
use aura_automated_user_rag.Coordinator.Claim.{claim_next_task}
use aura_automated_user_rag.Coordinator.Finish.{complete_task, fail_task}
use aura_automated_user_rag.Coordinator.Recover.{recover_stale}
use aura_automated_user_rag.Runtime.Finish.{complete_run, fail_run}
use aura_automated_user_rag.Missions.Orchestrator.{add_task}
use aura_automated_user_rag.Attempts.Bounded.{Bounded}

-- One operation on the database.
pub data Step (d : Database) : Database → Type 0 where
  added :
      (g : Ambient) (task : Task)
      → task.attempt_count ≡ 0
      → 0 < task.max_attempts
      → Step d (add_task g task d).1
  scheduled : (g : Ambient) (mission_id : ℕ) → Step d (schedule_ready_tasks g mission_id d).1
  claimed : (g : Ambient) (c : Coordinator) → Step d (claim_next_task g c d).1
  completed :
      (g : Ambient) (c : Coordinator) (task : Task) (execution : TaskExecution) (lease : TaskLease)
      (agent_run_id : ℕ)
      → Step d (complete_task g c task execution lease agent_run_id d).1
  failed :
      (g : Ambient) (c : Coordinator) (task : Task) (execution : TaskExecution) (lease : TaskLease)
      (reason : String) (retryable : Bool)
      → Step d (fail_task g c task execution lease reason retryable d).1
  recovered : (g : Ambient) (c : Coordinator) → Step d (recover_stale g c d).1
  run_completed :
      (g : Ambient) (run : AgentRun) (decision : AgentDecision)
      → Step d (complete_run g run decision d).1
  run_failed : (g : Ambient) (run : AgentRun) (reason : String) → Step d (fail_run g run reason d).1

pub data Runs (d : Database) : Database → Type 0 where
  start : Runs d d
  then_step : {e f : Database} → Runs d e → Step e f → Runs d f
