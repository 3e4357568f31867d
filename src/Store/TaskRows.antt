-- ===== src/Store/TaskRows.antt =====
-- `SQLAlchemyTaskRepository` and `SQLAlchemyTaskDependencyRepository`.
use aura_automated_user_rag.Base.{
  ℕ, ◌+◌, Bool, false, Option, none, some, List, [], ◌∷◌, ◌++◌, ◌==◌, ◌≟◌, ◌&&◌, if◌then◌else◌,
  filter, select, modify, not,
}
use aura_automated_user_rag.Domain.Tasks.{Task, TaskDependency, TaskStatus, task_status_eq}
use aura_automated_user_rag.Store.{Database}

abbrev pub task_key : Task → ℕ
task_key task = task.id

-- `tasks.create`
unfoldable pub create_task : Task → Database → Database
create_task task d = record d { tasks = d.tasks ++ task ∷ [] }

-- `tasks.get`
unfoldable pub get_task : ℕ → Database → Option Task
get_task task_id d = select task_key task_id d.tasks

-- `tasks.update`: the columns that it writes.
abbrev pub write_task : Task → Task → Task
write_task task row = record row {
  status = task.status;
  priority = task.priority;
  assigned_agent_id = task.assigned_agent_id;
  attempt_count = task.attempt_count;
  updated_at = task.updated_at;
}

unfoldable pub update_task : Task → Database → Database
update_task task d = record d { tasks = modify task_key task.id (write_task task) d.tasks }

-- `tasks.get_by_mission`
unfoldable pub tasks_of_mission : ℕ → Database → List Task
tasks_of_mission mission_id d = filter (λ t. t.mission_id == mission_id) d.tasks

abbrev pub claim_row : ℕ → ℕ → Task → Task
claim_row now worker_id row = record row {
  status = TaskStatus.running;
  assigned_agent_id = some worker_id;
  attempt_count = row.attempt_count + 1;
  updated_at = now;
}

-- `tasks.claim_task`; `locked` tells the rows that another transaction holds, which SKIP LOCKED
-- passes over.
unfoldable pub claim_task : (ℕ → Bool) → ℕ → ℕ → ℕ → Database → Option Task × Database
claim_task locked now task_id worker_id d = elim (select task_key task_id d.tasks) [
  | none ↦ (none, d)
  | some row ↦
      if (row.status ≟ TaskStatus.queued) && not (locked task_id)
      then (
        some (claim_row now worker_id row),
        record d { tasks = modify task_key task_id (claim_row now worker_id) d.tasks },
      )
      else (none, d)
]

abbrev pub move_row : ℕ → TaskStatus → Task → Task
move_row now to_status row = record row { status = to_status; updated_at = now }

-- `tasks.try_transition_status`
unfoldable pub try_transition_status :
    ℕ → ℕ → TaskStatus → TaskStatus → Database → Option Task × Database
try_transition_status now task_id from_status to_status d = elim (select task_key task_id d.tasks) [
  | none ↦ (none, d)
  | some row ↦
      if row.status ≟ from_status
      then (
        some (move_row now to_status row),
        record d { tasks = modify task_key task_id (move_row now to_status) d.tasks },
      )
      else (none, d)
]

-- `task_dependencies.add`
unfoldable pub add_task_dependency : TaskDependency → Database → Database
add_task_dependency dependency d = record d {
  task_dependencies = d.task_dependencies ++ dependency ∷ [];
}

-- `task_dependencies.get_dependencies_for_mission`: the join with the tasks of the mission.
abbrev pub of_mission : ℕ → List Task → TaskDependency → Bool
of_mission mission_id tasks dependency = elim (select task_key dependency.task_id tasks) [
  | none ↦ false
  | some task ↦ task.mission_id == mission_id
]

unfoldable pub dependencies_of_mission : ℕ → Database → List TaskDependency
dependencies_of_mission mission_id d = filter (of_mission mission_id d.tasks) d.task_dependencies
