-- ===== src/Store.antt =====
-- core/infrastructure/database/repositories.py: the database, the unit of work and the repositories.
-- A table is a list of rows under their primary keys. The keys are UUIDs that were drawn for the
-- row, so an insert does not meet a key that is there.
pub mod Work
pub mod TaskRows
pub mod Rows
pub mod RunRows
pub mod AgentRows
pub mod PlanRows
use aura_automated_user_rag.Base.{ℕ, List}
use aura_automated_user_rag.Domain.Events.{Event}
use aura_automated_user_rag.Domain.Missions.{Mission}
use aura_automated_user_rag.Domain.Tasks.{Task, TaskDependency, TaskExecution}
use aura_automated_user_rag.Domain.Plans.{EngineeringPlan}
use aura_automated_user_rag.Domain.Workers.{Worker, WorkerHeartbeat, TaskLease}
use aura_automated_user_rag.Domain.Approvals.{Approval}
use aura_automated_user_rag.Domain.Executions.{ExecutionEnvironment, CommandResult, Artifact}
use aura_automated_user_rag.Domain.Agents.{Agent}
use aura_automated_user_rag.Domain.Agents.Runs.{AgentRun}
use aura_automated_user_rag.Domain.Agents.Tools.{ToolCall}

pub record Database : Type 0 where
  pub missions : List Mission
  pub events : List Event
  pub tasks : List Task
  pub task_dependencies : List TaskDependency
  pub task_executions : List TaskExecution
  pub approvals : List Approval
  pub execution_environments : List ExecutionEnvironment
  pub agents : List Agent
  pub agent_runs : List AgentRun
  pub workers : List Worker
  pub worker_heartbeats : List WorkerHeartbeat
  pub task_leases : List TaskLease
  pub tool_calls : List ToolCall
  pub command_executions : List CommandResult
  pub artifacts : List Artifact
  pub plans : List EngineeringPlan
