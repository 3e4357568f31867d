-- ===== src/Scheduler.antt =====
-- core/application/task_scheduler.py. One call runs in one transaction: what other transactions do
-- meanwhile shows only in the rows that `try_transition_status` finds.
pub mod Readiness
pub mod Effects
pub mod Safety
pub mod Samples
use aura_automated_user_rag.Base.{
  ℕ, Bool, true, false, Option, none, some, String, List, [], ◌∷◌, ◌++◌, ◌==◌, ◌≟◌, elem, not,
  if◌then◌else◌, filter, select, Result,
}
use aura_automated_user_rag.Domain.Events.{Ambient, shift, new_event, Value, text}
use aura_automated_user_rag.Domain.Missions.{Mission, MissionStatus, mission_status_eq}
use aura_automated_user_rag.Domain.Tasks.{Task, TaskDependency, TaskStatus, task_status_eq}
use aura_automated_user_rag.Store.{Database}
use aura_automated_user_rag.Store.Work.{
  Uow, pure, reads, writes, updates, commit, with_uow, ◌>>=◌, ◌>>◌,
}
use aura_automated_user_rag.Store.TaskRows.{
  task_key, tasks_of_mission, dependencies_of_mission, try_transition_status,
}
use aura_automated_user_rag.Store.Rows.{get_mission_row, append_event}

-- The two flags of the loop over the dependencies of a task.
pub record Flags : Type 0 where
  pub all_succeeded : Bool
  pub blocked : Bool

abbrev pub terminal_failure : List TaskStatus
terminal_failure = TaskStatus.failed ∷ TaskStatus.cancelled ∷ []

-- The loop, with its `break`s; `tasks` are the values of `task_dict`.
unfoldable pub check_dependencies : List Task → List TaskDependency → Flags
check_dependencies tasks [] = record { all_succeeded = true; blocked = false }
check_dependencies tasks (d ∷ task_deps) =
    let rest = check_dependencies tasks task_deps in
    elim (select task_key d.depends_on_task_id tasks) [
      | none ↦ record { all_succeeded = true; blocked = true }
      | some parent ↦
          if elem parent.status terminal_failure
          then record { all_succeeded = true; blocked = true }
          else if not (parent.status ≟ TaskStatus.succeeded)
          then record { all_succeeded = false; blocked = false }
          else rest
    ]

module _ (g : Ambient) (mission_id : ℕ) where
  abbrev pub task_event : ℕ → String → ℕ → List (String × Value) → Database → Database
  task_event k event_type task_id metadata =
      append_event (new_event g k event_type mission_id (some task_id) none metadata)

  abbrev pub after_block : Task → Option Task → Uow (List Task)
  after_block task none = pure []
  after_block task (some _) = do
    writes
        (task_event 1 "task.blocked" task.id (("reason", text "dependency failed or missing") ∷ []))
    commit
    pure []

  -- The branch for a task that is blocked.
  unfoldable pub block_task : Task → Uow (List Task)
  unfolding try_transition_status append_event
  block_task task =
      if task.status ≟ TaskStatus.blocked
      then pure []
      else updates (try_transition_status (g.now 0) task.id task.status TaskStatus.blocked)
        >>= after_block task

  abbrev pub after_queue : Task → Option Task → Uow (List Task)
  after_queue task none = pure []
  after_queue task (some _) = writes (task_event 3 "task.queued" task.id []) >> pure (task ∷ [])

  abbrev pub after_ready : Task → Option Task → Uow (List Task)
  after_ready task none = pure []
  after_ready task (some _) = do
    writes (task_event 1 "task.ready" task.id [])
    again ← updates (try_transition_status (g.now 2) task.id TaskStatus.ready TaskStatus.queued)
    after_queue task again

  -- The branch for a task whose dependencies have all succeeded.
  unfoldable pub queue_task : Task → Uow (List Task)
  unfolding try_transition_status append_event
  queue_task task =
      updates (try_transition_status (g.now 0) task.id task.status TaskStatus.ready)
      >>= after_ready task

  abbrev pub act_on : Flags → Task → Uow (List Task)
  act_on flags task =
      if flags.blocked
      then block_task task
      else if flags.all_succeeded
      then queue_task task
      else pure []

  -- The body of the loop over the tasks: what it appends to `ready_tasks`.
  unfoldable pub schedule_task : List Task → List TaskDependency → Task → Uow (List Task)
  unfolding block_task queue_task
  schedule_task tasks deps task =
      if elem task.status (TaskStatus.pending ∷ TaskStatus.blocked ∷ [])
      then act_on (check_dependencies tasks (filter (λ d. d.task_id == task.id) deps)) task
      else pure []

unfoldable pub schedule_tasks :
    Ambient → ℕ → List Task → List TaskDependency → List Task → Uow (List Task)
schedule_tasks g mission_id tasks deps [] = pure []
schedule_tasks g mission_id tasks deps (task ∷ rest) = do
  ready ← schedule_task g mission_id tasks deps task
  more ← schedule_tasks (shift 4 g) mission_id tasks deps rest
  pure (ready ++ more)

abbrev pub commit_if_any : List Task → Uow (List Task)
commit_if_any [] = pure []
commit_if_any (t ∷ ts) = do commit; pure (t ∷ ts)

-- What the `async with` block does for a mission that is executing.
unfoldable pub schedule_mission : Ambient → ℕ → Uow (List Task)
schedule_mission g mission_id = do
  tasks ← reads (tasks_of_mission mission_id)
  deps ← reads (dependencies_of_mission mission_id)
  ready ← schedule_tasks g mission_id tasks deps tasks
  commit_if_any ready

abbrev pub schedule_found : Ambient → ℕ → Option Mission → Uow (List Task)
schedule_found g mission_id none = pure []
schedule_found g mission_id (some m) =
    if m.status ≟ MissionStatus.executing then schedule_mission g mission_id else pure []

-- The body of the `async with` block.
unfoldable pub schedule_body : Ambient → ℕ → Uow (List Task)
schedule_body g mission_id = reads (get_mission_row mission_id) >>= schedule_found g mission_id

-- `TaskScheduler.schedule_ready_tasks`
unfoldable pub schedule_ready_tasks : Ambient → ℕ → Database → Result (List Task) × Database
unfolding schedule_body
schedule_ready_tasks g mission_id = with_uow (schedule_body g mission_id)
