-- ===== src/Attempts/Scheduling.antt =====
-- The scheduler keeps the attempts bounded.
use aura_automated_user_rag.Base.{
  ℕ, true, Option, none, some, List, [], ◌∷◌, ◌++◌, ◌≡◌, inl, inr, refl, arith, ◌≟◌, ◌==◌, elem,
  filter, select, Option-cases, Bool-cases,
}
use aura_automated_user_rag.Domain.Events.{Ambient, shift}
use aura_automated_user_rag.Domain.Missions.{Mission, MissionStatus, mission_status_eq}
use aura_automated_user_rag.Domain.Tasks.{Task, TaskDependency, TaskStatus, task_status_eq}
use aura_automated_user_rag.Store.{Database}
use aura_automated_user_rag.Store.Work.{Session, updates, pure, ◌>>=◌}
use aura_automated_user_rag.Store.TaskRows.{
  task_key, try_transition_status, tasks_of_mission, dependencies_of_mission,
}
use aura_automated_user_rag.Store.Rows.{get_mission_row, append_event}
use aura_automated_user_rag.Scheduler.{
  Flags, block_task, queue_task, act_on, check_dependencies, schedule_task, schedule_tasks,
  schedule_mission, schedule_ready_tasks, schedule_found, task_event, commit_if_any, after_block,
  after_ready, after_queue,
}
use aura_automated_user_rag.Attempts.Bounded.{waiting, AllBounded, move_row-AllBounded}
use aura_automated_user_rag.Attempts.Sessions.{Keeps, pure-Keeps, bind-Keeps}

try_transition-Keeps :
    (now k : ℕ) (from to : TaskStatus)
    → waiting from ≡ true
    → Keeps AllBounded (updates (try_transition_status now k from to))
unfolding try_transition_status
try_transition-Keeps now k from to waits s all q =
    elim (Option-cases (select task_key k s.pending.tasks)) [
      | inl gone ↦ rw (gone, try_transition_status) (all, q)
      | inr (row, found) ↦ elim (Bool-cases (row.status ≟ from)) [
        | inr other ↦ rw (found, try_transition_status, other) (all, q)
        | inl same ↦
            let waits_row : waiting row.status ≡ true = ground (arith, waits) in
            rw (found, try_transition_status, same)
              (all, move_row-AllBounded now k to s.pending.tasks row found waits_row q)
      ]
    ]

module _ (g : Ambient) (mission_id : ℕ) where
  after_block-Keeps :
      (task : Task) (moved : Option Task) → Keeps AllBounded (after_block g mission_id task moved)
  unfolding append_event
  after_block-Keeps task none s all q = (all, q)
  after_block-Keeps task (some row) s all q = (q, q)

  block_task-Keeps :
      (task : Task) → waiting task.status ≡ true → Keeps AllBounded (block_task g mission_id task)
  unfolding block_task
  block_task-Keeps task waits s all q = elim (Bool-cases (task.status ≟ TaskStatus.blocked)) [
    | inl before ↦ rw before (all, q)
    | inr other ↦ rw other (
        bind-Keeps AllBounded
          (updates (try_transition_status (g.now 0) task.id task.status TaskStatus.blocked))
          (after_block g mission_id task)
          (try_transition-Keeps (g.now 0) task.id task.status TaskStatus.blocked waits)
          (after_block-Keeps task) s all q)
  ]

  after_queue-Keeps :
      (task : Task) (moved : Option Task) → Keeps AllBounded (after_queue g mission_id task moved)
  unfolding append_event
  after_queue-Keeps task none s all q = (all, q)
  after_queue-Keeps task (some row) s all q = (all, q)

  after_ready-Keeps :
      (task : Task) (moved : Option Task) → Keeps AllBounded (after_ready g mission_id task moved)
  unfolding append_event
  after_ready-Keeps task none s all q = (all, q)
  after_ready-Keeps task (some row) s all q =
      let t : Session = record s {
        pending = task_event g mission_id 1 "task.ready" task.id [] s.pending;
      } in
      bind-Keeps AllBounded
        (updates (try_transition_status (g.now 2) task.id TaskStatus.ready TaskStatus.queued))
        (after_queue g mission_id task)
        (try_transition-Keeps (g.now 2) task.id TaskStatus.ready TaskStatus.queued refl)
        (after_queue-Keeps task) t all q

  queue_task-Keeps :
      (task : Task) → waiting task.status ≡ true → Keeps AllBounded (queue_task g mission_id task)
  unfolding queue_task
  queue_task-Keeps task waits =
      bind-Keeps AllBounded
        (updates (try_transition_status (g.now 0) task.id task.status TaskStatus.ready))
        (after_ready g mission_id task)
        (try_transition-Keeps (g.now 0) task.id task.status TaskStatus.ready waits)
        (after_ready-Keeps task)

  act_on-Keeps :
      (flags : Flags) (task : Task)
      → waiting task.status ≡ true
      → Keeps AllBounded (act_on g mission_id flags task)
  act_on-Keeps flags task waits s all q = elim (Bool-cases flags.blocked) [
    | inl stopped ↦ rw stopped (block_task-Keeps task waits s all q)
    | inr free ↦ elim (Bool-cases flags.all_succeeded) [
      | inl done ↦ rw (free, done) (queue_task-Keeps task waits s all q)
      | inr missing ↦ rw (free, missing) (all, q)
    ]
  ]

  schedule_task-Keeps :
      (tasks : List Task) (deps : List TaskDependency) (task : Task)
      → Keeps AllBounded (schedule_task g mission_id tasks deps task)
  unfolding schedule_task
  schedule_task-Keeps tasks deps task s all q =
      elim (Bool-cases (elem task.status (TaskStatus.pending ∷ TaskStatus.blocked ∷ []))) [
        | inl idle ↦ rw idle (
            act_on-Keeps (check_dependencies tasks (filter (λ d. d.task_id == task.id) deps)) task
              (ground (arith, idle)) s all q)
        | inr other ↦ rw other (all, q)
      ]

schedule_tasks-Keeps :
    (g : Ambient) (mission_id : ℕ) (tasks : List Task) (deps : List TaskDependency)
    (visited : List Task)
    → Keeps AllBounded (schedule_tasks g mission_id tasks deps visited)
unfolding schedule_tasks
schedule_tasks-Keeps g mission_id tasks deps [] s all q = (all, q)
schedule_tasks-Keeps g mission_id tasks deps (task ∷ rest) s all q =
    bind-Keeps AllBounded (schedule_task g mission_id tasks deps task)
      (λ ready.
        schedule_tasks (shift 4 g) mission_id tasks deps rest >>= λ more. pure (ready ++ more))
      (schedule_task-Keeps g mission_id tasks deps task)
      (λ ready.
        bind-Keeps AllBounded (schedule_tasks (shift 4 g) mission_id tasks deps rest)
          (λ more. pure (ready ++ more))
          (schedule_tasks-Keeps (shift 4 g) mission_id tasks deps rest)
          (λ more. pure-Keeps AllBounded (ready ++ more)))
      s all q

commit_if_any-Keeps : (ready : List Task) → Keeps AllBounded (commit_if_any ready)
commit_if_any-Keeps [] s all q = (all, q)
commit_if_any-Keeps (t ∷ ts) s all q = (q, q)

found_mission-Keeps :
    (g : Ambient) (mission_id : ℕ) (found : Option Mission)
    → Keeps AllBounded (schedule_found g mission_id found)
unfolding schedule_mission
found_mission-Keeps g mission_id none s all q = (all, q)
found_mission-Keeps g mission_id (some m) s all q =
    elim (Bool-cases (m.status ≟ MissionStatus.executing)) [
      | inr idle ↦ rw idle (all, q)
      | inl active ↦
          let tasks : List Task = tasks_of_mission mission_id s.pending in
          let deps : List TaskDependency = dependencies_of_mission mission_id s.pending in
          rw active (
            bind-Keeps AllBounded (schedule_tasks g mission_id tasks deps tasks) commit_if_any
              (schedule_tasks-Keeps g mission_id tasks deps tasks) commit_if_any-Keeps s all q)
    ]

-- `schedule_ready_tasks`
pub schedule_ready_tasks-AllBounded :
    (g : Ambient) (mission_id : ℕ) (d : Database)
    → AllBounded d.tasks
    → AllBounded (schedule_ready_tasks g mission_id d).1.tasks
unfolding schedule_ready_tasks
schedule_ready_tasks-AllBounded g mission_id d all =
    (found_mission-Keeps g mission_id (get_mission_row mission_id d)
      (record { committed = d; pending = d }) all all).0
