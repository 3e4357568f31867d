-- ===== src/Coordinator.antt =====
-- core/application/worker_coordinator.py: one worker that claims tasks and executes them.
pub mod Claim
pub mod Lease
pub mod Finish
pub mod Recover
pub mod Execute
pub mod Samples
use aura_automated_user_rag.Base.{
  ℕ, ◌+◌, Bool, String, Option, none, some, List, [], ◌∷◌, ◌≟◌, string_eq, elem, find, Result, ok,
  raise,
}
use aura_automated_user_rag.Domain.Events.{Ambient, new_event, ident, text}
use aura_automated_user_rag.Domain.Tasks.{Task, TaskType}
use aura_automated_user_rag.Domain.Workers.{
  Worker, WorkerStatus, WorkerCapability, value, transition, coding, testing, security_review,
  research,
}
use aura_automated_user_rag.Store.{Database}
use aura_automated_user_rag.Store.Work.{Uow, pure, reads, writes, commit, with_uow, ◌>>=◌, ◌>>◌}
use aura_automated_user_rag.Store.Rows.{
  workers_by_status, create_worker, get_worker, update_worker, append_event,
}

-- The attributes of a coordinator; `worker` is the object that `register` left in it, and `locked`
-- tells the rows of tasks that other transactions hold while it claims.
pub record Coordinator : Type 0 where
  pub mission_id : ℕ
  pub agent_id : ℕ
  pub worker_name : String
  pub capabilities : List String
  pub lease_ttl_seconds : ℕ
  pub worker : Worker
  pub locked : ℕ → Bool

-- `TASK_TYPE_CAPABILITIES`
abbrev pub task_type_capabilities : TaskType → WorkerCapability
task_type_capabilities TaskType.implementation = coding
task_type_capabilities TaskType.testing = testing
task_type_capabilities TaskType.security_review = security_review
task_type_capabilities TaskType.code_review = coding
task_type_capabilities TaskType.verification = testing
task_type_capabilities TaskType.analysis = research
task_type_capabilities TaskType.planning = research

-- `_has_required_capabilities`; the table has an entry for every type of task.
abbrev pub has_required_capabilities : Coordinator → Task → Bool
has_required_capabilities c task =
    elem (value (task_type_capabilities task.task_type)) c.capabilities

module _ (g : Ambient) where
  -- `try: WorkerStateMachine.transition(worker, status)`, `except InvalidWorkerTransition: pass`
  abbrev pub try_transition : ℕ → WorkerStatus → Worker → Worker
  try_transition k status worker = elim (transition (g.now k) worker status) [
    | ok moved ↦ moved
    | raise _ ↦ worker
  ]

  abbrev pub new_worker : Coordinator → Worker
  new_worker c = record {
    id = g.uuid 0;
    name = c.worker_name;
    status = WorkerStatus.registered;
    capabilities = c.capabilities;
    capabilities_enum = [];
    last_heartbeat_at = none;
    metadata = [];
    created_at = g.now 0;
    updated_at = g.now 1;
  }

  -- The worker of `register`: one that is there under the name, or a new one.
  abbrev registration : Coordinator → Uow Worker
  registration c = do
    workers ← reads (workers_by_status WorkerStatus.registered)
    elim (find (λ w. w.name ≟ c.worker_name) workers) [
      | some existing ↦ pure existing
      | none ↦ writes (create_worker (new_worker c)) >> pure (new_worker c)
    ]

  abbrev activated : Worker → Worker
  activated worker = record (try_transition 2 WorkerStatus.available worker) {
    last_heartbeat_at = some (g.now 3);
    updated_at = g.now 4;
  }

  -- `register`
  unfoldable pub register : Coordinator → Database → Result Worker × Database
  register c = with_uow (do
    worker ← registration c
    writes (update_worker (activated worker))
    writes (
        append_event (
          new_event g 5 "worker.registered" c.mission_id none (some c.agent_id)
            (("worker_id", ident worker.id) ∷ ("name", text worker.name) ∷ [])))
    commit
    pure (activated worker))

  abbrev write_status : Result Worker → Uow (Unit {0})
  write_status (raise _) = pure tt
  write_status (ok moved) = writes (update_worker (record moved { updated_at = g.now 1 })) >> commit

  abbrev set_status : WorkerStatus → Option Worker → Uow (Unit {0})
  set_status status none = pure tt
  set_status status (some worker) = write_status (transition (g.now 0) worker status)

  -- `_set_worker_status`
  unfoldable pub set_worker_status :
      Coordinator → WorkerStatus → Database → Result (Unit {0}) × Database
  set_worker_status c status = with_uow (reads (get_worker c.worker.id) >>= set_status status)
