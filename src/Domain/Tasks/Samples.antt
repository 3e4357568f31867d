-- ===== src/Domain/Tasks/Samples.antt =====
-- A task that fails on its first attempt and succeeds on its second.
use aura_automated_user_rag.Base.{none, pos, List, [], ◌∷◌, In, refl}
use aura_automated_user_rag.Domain.Tasks.{
  TaskStatus, task_status_eq, TaskType, Task, transition, transitions,
}
use aura_automated_user_rag.Domain.Tasks.Lifecycle.{finished-after-running}

abbrev task : TaskStatus → Task
task status = record {
  id = 1;
  mission_id = 1;
  title = "title";
  description = "description";
  status = status;
  task_type = TaskType.implementation;
  priority = pos 0;
  assigned_agent_id = none;
  attempt_count = 0;
  max_attempts = 3;
  created_at = 0;
  updated_at = 0;
}

abbrev retried : List TaskStatus
retried =
    TaskStatus.ready ∷ TaskStatus.queued ∷ TaskStatus.running ∷ TaskStatus.failed
    ∷ TaskStatus.retrying ∷ TaskStatus.queued ∷ TaskStatus.running ∷ TaskStatus.succeeded ∷ []

finished-after-running_example :
    In TaskStatus.ready retried × In TaskStatus.queued retried × In TaskStatus.running retried
unfolding transitions transition
finished-after-running_example =
    finished-after-running (task TaskStatus.pending) retried (task TaskStatus.succeeded) refl refl
      refl
