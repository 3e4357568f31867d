-- ===== src/Domain/Samples.antt =====
-- Rows for the tests of the services.
use aura_automated_user_rag.Base.{ℕ, ◌+◌, none, pos, List, [], ◌∷◌}
use aura_automated_user_rag.Domain.Events.{Ambient}
use aura_automated_user_rag.Domain.Missions.{Mission, MissionStatus}
use aura_automated_user_rag.Store.{Database}
use aura_automated_user_rag.Domain.Tasks.{Task, TaskStatus, TaskType, TaskDependency}

abbrev pub ambient : Ambient
ambient = record { uuid = λ k. k + 1000; now = λ k. k + 50 }

abbrev pub mission_of : MissionStatus → Mission
mission_of status = record {
  id = 1;
  title = "title";
  description = "description";
  repository_id = "repository";
  source = "source";
  status = status;
  risk_level = "medium";
  created_at = 0;
  updated_at = 0;
}

abbrev pub task_of : ℕ → TaskStatus → Task
task_of id status = record {
  id = id;
  mission_id = 1;
  title = "title";
  description = "description";
  status = status;
  task_type = TaskType.implementation;
  priority = pos 0;
  assigned_agent_id = none;
  attempt_count = 0;
  max_attempts = 3;
  created_at = id;
  updated_at = 0;
}

abbrev pub after : ℕ → ℕ → TaskDependency
after task parent = record { task_id = task; depends_on_task_id = parent }

-- A database with a mission, tasks and their dependencies.
abbrev pub database_of : MissionStatus → List Task → List TaskDependency → Database
database_of status tasks deps = record {
  missions = mission_of status ∷ [];
  events = [];
  tasks = tasks;
  task_dependencies = deps;
  task_executions = [];
  approvals = [];
  execution_environments = [];
  agents = [];
  agent_runs = [];
  workers = [];
  worker_heartbeats = [];
  task_leases = [];
  tool_calls = [];
  command_executions = [];
  artifacts = [];
  plans = [];
}
