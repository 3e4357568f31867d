-- ===== src/Coordinator/Claim.antt =====
-- `claim_next_task`.
pub mod Effects
pub mod Safety
use aura_automated_user_rag.Base.{
  ℕ, ◌+◌, Bool, true, false, Option, none, some, String, List, [], ◌∷◌, ◌==◌, ◌≟◌, ◌&&◌, ◌||◌, ltb,
  if◌then◌else◌, filter, select, sorted, ltb_ℤ, eqb_ℤ, Result, ok, raise,
}
use aura_automated_user_rag.Domain.Events.{Ambient, shift, new_event, ident}
use aura_automated_user_rag.Domain.Missions.{Mission, MissionStatus, mission_status_eq}
use aura_automated_user_rag.Domain.Tasks.{
  Task, TaskDependency, TaskStatus, task_status_eq, TaskExecution, TaskExecutionStatus,
}
use aura_automated_user_rag.Domain.Workers.{Worker, WorkerStatus, TaskLease, transition}
use aura_automated_user_rag.Store.{Database}
use aura_automated_user_rag.Store.Work.{
  Uow, pure, reads, writes, updates, commit, with_uow, ◌>>=◌, ◌>>◌,
}
use aura_automated_user_rag.Store.TaskRows.{
  task_key, tasks_of_mission, dependencies_of_mission, claim_task,
}
use aura_automated_user_rag.Store.Rows.{
  get_mission_row, append_event, add_execution, create_lease, update_worker,
}
use aura_automated_user_rag.Coordinator.{Coordinator, has_required_capabilities}

-- What a claim returns, and the worker object as it leaves it.
pub record Claimed : Type 0 where
  pub task : Task
  pub execution : TaskExecution
  pub lease : TaskLease
  pub worker : Worker

-- The key `(t.priority, t.created_at)` of the sort.
abbrev pub claim_order : Task → Task → Bool
claim_order t u =
    ltb_ℤ t.priority u.priority || eqb_ℤ t.priority u.priority && ltb t.created_at u.created_at

-- The loop over the dependencies of a task; `tasks` are the values of `task_dict`.
unfoldable pub dependencies_met : List Task → List TaskDependency → Bool
dependencies_met tasks [] = true
dependencies_met tasks (d ∷ deps) =
    let rest = dependencies_met tasks deps in
    elim (select task_key d.depends_on_task_id tasks) [
      | none ↦ false
      | some parent ↦ if parent.status ≟ TaskStatus.succeeded then rest else false
    ]

abbrev pub eligible : Coordinator → List Task → List TaskDependency → Task → Bool
eligible c tasks deps task =
    (task.status ≟ TaskStatus.queued)
    && has_required_capabilities c task
    && dependencies_met tasks (filter (λ d. d.task_id == task.id) deps)

module _ (g : Ambient) (c : Coordinator) where
  abbrev pub new_execution : Task → TaskExecution
  new_execution task = record {
    id = g.uuid 0;
    task_id = task.id;
    agent_id = some c.agent_id;
    attempt_number = task.attempt_count;
    status = TaskExecutionStatus.running;
    started_at = g.now 1;
    completed_at = none;
    error = none;
    result_metadata = [];
  }

  abbrev pub new_lease : Task → TaskLease
  new_lease task = record {
    id = g.uuid 1;
    worker_id = c.worker.id;
    task_id = task.id;
    task_execution_id = g.uuid 0;
    claimed_at = g.now 2;
    lease_expires_at = g.now 2 + c.lease_ttl_seconds;
    last_heartbeat_at = some (g.now 2);
    renewed_count = 0;
    metadata = [];
    created_at = g.now 3;
    updated_at = g.now 4;
  }

  -- The worker becomes BUSY where its state machine allows it.
  abbrev become_busy : Result Worker → Uow Worker
  become_busy (ok worker) = writes (update_worker worker) >> pure worker
  become_busy (raise _) = pure c.worker

  abbrev claimed_event : Task → Database → Database
  claimed_event task = append_event (
      new_event g 6 "task.claimed" c.mission_id (some task.id) (some c.agent_id) (
        ("worker_id", ident c.worker.id)
        ∷ ("task_execution_id", ident (g.uuid 0))
        ∷ ("lease_id", ident (g.uuid 1))
        ∷ []))

  -- What follows a row that was claimed.
  unfoldable pub record_claim : Task → Uow (Option Claimed)
  record_claim task = do
    writes (add_execution (new_execution task))
    writes (create_lease (new_lease task))
    worker ← become_busy (transition (g.now 5) c.worker WorkerStatus.busy)
    writes (claimed_event task)
    commit
    pure (
        some (record {
          task = task;
          execution = new_execution task;
          lease = new_lease task;
          worker = worker;
        }))

  -- The rest of the loop's body for an eligible task; `next` goes on after a lost race.
  abbrev pub claim_or : Uow (Option Claimed) → Option Task → Uow (Option Claimed)
  claim_or next none = next
  claim_or next (some task) = record_claim task

-- The loop over the sorted tasks.
unfoldable pub claim_first :
    Ambient → Coordinator → List Task → List TaskDependency → List Task → Uow (Option Claimed)
claim_first g c tasks deps [] = pure none
claim_first g c tasks deps (task ∷ rest) =
    let next = claim_first (shift 8 g) c tasks deps rest in
    if eligible c tasks deps task
    then updates (claim_task c.locked (g.now 0) task.id c.worker.id) >>= claim_or g c next
    else next

-- What the `async with` block does for a mission that is executing.
unfoldable pub claim_in_mission : Ambient → Coordinator → Uow (Option Claimed)
claim_in_mission g c = do
  tasks ← reads (tasks_of_mission c.mission_id)
  deps ← reads (dependencies_of_mission c.mission_id)
  claim_first g c tasks deps (sorted claim_order tasks)

abbrev pub claim_body : Ambient → Coordinator → Option Mission → Uow (Option Claimed)
claim_body g c none = pure none
claim_body g c (some m) =
    if m.status ≟ MissionStatus.executing then claim_in_mission g c else pure none

-- `claim_next_task`
unfoldable pub claim_next_task :
    Ambient → Coordinator → Database → Result (Option Claimed) × Database
claim_next_task g c = with_uow (reads (get_mission_row c.mission_id) >>= claim_body g c)
