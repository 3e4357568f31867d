-- ===== src/Scheduler/Samples.antt =====
-- The scheduler on a mission of four tasks: 2 may run, 3 waits for 2, and 4 depends on a failed one.
use aura_automated_user_rag.Base.{List, [], ◌∷◌, ◌≡◌, ◌⊎◌, refl, In, here, ok, map, select, modify}
use aura_automated_user_rag.Domain.Missions.{MissionStatus}
use aura_automated_user_rag.Domain.Tasks.{Task, TaskStatus}
use aura_automated_user_rag.Domain.Samples.{ambient, mission_of, task_of, after}
use aura_automated_user_rag.Store.{Database}
use aura_automated_user_rag.Store.Work.{Session}
use aura_automated_user_rag.Store.TaskRows.{tasks_of_mission, dependencies_of_mission}
use aura_automated_user_rag.Store.Rows.{get_mission_row}
use aura_automated_user_rag.Scheduler.{
  schedule_ready_tasks, schedule_body, schedule_mission, schedule_tasks, schedule_task,
  check_dependencies,
}
use aura_automated_user_rag.Scheduler.Safety.{
  HasStatus, Schedulable, schedule_durable, scheduled-Schedulable, queued-scheduled,
}

abbrev database : Database
database = record {
  missions = mission_of MissionStatus.executing ∷ [];
  events = [];
  tasks =
      task_of 1 TaskStatus.succeeded
      ∷ task_of 2 TaskStatus.pending
      ∷ task_of 3 TaskStatus.pending
      ∷ task_of 4 TaskStatus.pending
      ∷ task_of 5 TaskStatus.failed
      ∷ [];
  task_dependencies = after 2 1 ∷ after 3 2 ∷ after 4 5 ∷ [];
  task_executions = [];
  approvals = [];
  execution_environments = [];
  agents = [];
  agent_runs = [];
  workers = [];
  worker_heartbeats = [];
  task_leases = [];
  tool_calls = [];
  command_executions = [];
  artifacts = [];
  plans = [];
}

second : (schedule_ready_tasks ambient 1 database).0 ≡ ok (task_of 2 TaskStatus.pending ∷ [])
unfolding schedule_ready_tasks schedule_mission schedule_tasks schedule_task check_dependencies
    get_mission_row tasks_of_mission dependencies_of_mission select modify
second = refl

statuses :
    map (λ t. t.status) (schedule_ready_tasks ambient 1 database).1.tasks
    ≡ TaskStatus.succeeded ∷ TaskStatus.queued ∷ TaskStatus.pending ∷ TaskStatus.blocked
      ∷ TaskStatus.failed ∷ []
unfolding schedule_ready_tasks schedule_mission schedule_tasks schedule_task check_dependencies
    get_mission_row tasks_of_mission dependencies_of_mission select modify
statuses = refl

schedule_durable_example :
    let s : Session = record { committed = database; pending = database } in
    (ready : List Task) × ((schedule_ready_tasks ambient 1 database).0 ≡ ok ready)
    × ((schedule_ready_tasks ambient 1 database).1 ≡ (schedule_body ambient 1 s).1.pending)
schedule_durable_example = schedule_durable ambient 1 database

scheduled-Schedulable_example :
    In (task_of 2 TaskStatus.pending) (tasks_of_mission 1 database)
    × Schedulable
        (tasks_of_mission 1 database)
        (dependencies_of_mission 1 database)
        (task_of 2 TaskStatus.pending)
scheduled-Schedulable_example =
    scheduled-Schedulable ambient 1 database (task_of 2 TaskStatus.pending ∷ [])
      (task_of 2 TaskStatus.pending) second (here refl)

queued-scheduled_example :
    HasStatus TaskStatus.queued database.tasks 2
    ⊎ ((x : Task) × In x (task_of 2 TaskStatus.pending ∷ []) × (x.id ≡ 2))
unfolding schedule_ready_tasks schedule_mission schedule_tasks schedule_task check_dependencies
    get_mission_row tasks_of_mission dependencies_of_mission select modify
queued-scheduled_example =
    queued-scheduled ambient 1 database (task_of 2 TaskStatus.pending ∷ []) 2 second
      (record (task_of 2 TaskStatus.queued) { updated_at = 56 }, refl, refl)
