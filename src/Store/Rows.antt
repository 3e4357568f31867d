-- ===== src/Store/Rows.antt =====
-- The other repositories.
use aura_automated_user_rag.Base.{ℕ, Option, List, [], ◌∷◌, ◌++◌, ltb, filter, select, modify, ◌≟◌}
use aura_automated_user_rag.Domain.Events.{Event}
use aura_automated_user_rag.Domain.Missions.{Mission}
use aura_automated_user_rag.Domain.Tasks.{TaskExecution}
use aura_automated_user_rag.Domain.Workers.{
  Worker, WorkerStatus, worker_status_eq, WorkerHeartbeat, TaskLease,
}
use aura_automated_user_rag.Domain.Approvals.{Approval}
use aura_automated_user_rag.Store.{Database}

abbrev pub mission_key : Mission → ℕ
mission_key mission = mission.id

abbrev pub execution_key : TaskExecution → ℕ
execution_key execution = execution.id

abbrev pub lease_key : TaskLease → ℕ
lease_key lease = lease.id

abbrev pub worker_key : Worker → ℕ
worker_key worker = worker.id

abbrev pub approval_key : Approval → ℕ
approval_key approval = approval.id

-- `missions.create`, `missions.get`, `missions.update`
unfoldable pub create_mission_row : Mission → Database → Database
create_mission_row mission d = record d { missions = d.missions ++ mission ∷ [] }

unfoldable pub get_mission_row : ℕ → Database → Option Mission
get_mission_row mission_id d = select mission_key mission_id d.missions

abbrev pub write_mission : Mission → Mission → Mission
write_mission mission row = record row { status = mission.status; updated_at = mission.updated_at }

unfoldable pub update_mission_row : Mission → Database → Database
update_mission_row mission d = record d {
  missions = modify mission_key mission.id (write_mission mission) d.missions;
}

-- `events.append`
unfoldable pub append_event : Event → Database → Database
append_event event d = record d { events = d.events ++ event ∷ [] }

-- `task_executions.add`, `task_executions.get`, `task_executions.update`
unfoldable pub add_execution : TaskExecution → Database → Database
add_execution execution d = record d { task_executions = d.task_executions ++ execution ∷ [] }

unfoldable pub get_execution : ℕ → Database → Option TaskExecution
get_execution execution_id d = select execution_key execution_id d.task_executions

abbrev pub write_execution : TaskExecution → TaskExecution → TaskExecution
write_execution execution row = record row {
  agent_id = execution.agent_id;
  status = execution.status;
  completed_at = execution.completed_at;
  error = execution.error;
  result_metadata = execution.result_metadata;
}

unfoldable pub update_execution : TaskExecution → Database → Database
update_execution execution d = record d {
  task_executions = modify execution_key execution.id (write_execution execution) d.task_executions;
}

-- `approvals.create`, `approvals.get`, `approvals.update`
unfoldable pub create_approval : Approval → Database → Database
create_approval approval d = record d { approvals = d.approvals ++ approval ∷ [] }

unfoldable pub get_approval : ℕ → Database → Option Approval
get_approval approval_id d = select approval_key approval_id d.approvals

-- `workers.create`, `workers.get`, `workers.get_by_status`, `workers.update`
unfoldable pub create_worker : Worker → Database → Database
create_worker worker d = record d { workers = d.workers ++ worker ∷ [] }

unfoldable pub get_worker : ℕ → Database → Option Worker
get_worker worker_id d = select worker_key worker_id d.workers

unfoldable pub workers_by_status : WorkerStatus → Database → List Worker
workers_by_status status d = filter (λ w. w.status ≟ status) d.workers

abbrev pub write_worker : Worker → Worker → Worker
write_worker worker row = record row {
  status = worker.status;
  capabilities = worker.capabilities;
  last_heartbeat_at = worker.last_heartbeat_at;
  metadata = worker.metadata;
  updated_at = worker.updated_at;
}

unfoldable pub update_worker : Worker → Database → Database
update_worker worker d = record d {
  workers = modify worker_key worker.id (write_worker worker) d.workers;
}

-- `worker_heartbeats.create`
unfoldable pub create_heartbeat : WorkerHeartbeat → Database → Database
create_heartbeat heartbeat d = record d {
  worker_heartbeats = d.worker_heartbeats ++ heartbeat ∷ [];
}

-- `task_leases.create`, `task_leases.get`, `task_leases.get_stale_leases`, `task_leases.update`
unfoldable pub create_lease : TaskLease → Database → Database
create_lease lease d = record d { task_leases = d.task_leases ++ lease ∷ [] }

unfoldable pub get_lease : ℕ → Database → Option TaskLease
get_lease lease_id d = select lease_key lease_id d.task_leases

unfoldable pub stale_leases : ℕ → Database → List TaskLease
stale_leases before d = filter (λ lease. ltb lease.lease_expires_at before) d.task_leases

abbrev pub write_lease : TaskLease → TaskLease → TaskLease
write_lease lease row = record row {
  lease_expires_at = lease.lease_expires_at;
  last_heartbeat_at = lease.last_heartbeat_at;
  renewed_count = lease.renewed_count;
  metadata = lease.metadata;
  updated_at = lease.updated_at;
}

unfoldable pub update_lease : TaskLease → Database → Database
update_lease lease d = record d {
  task_leases = modify lease_key lease.id (write_lease lease) d.task_leases;
}

-- `approvals.update`
abbrev pub write_approval : Approval → Approval → Approval
write_approval approval row = record row {
  status = approval.status;
  resolved_at = approval.resolved_at;
  resolved_by = approval.resolved_by;
  metadata = approval.metadata;
}

unfoldable pub update_approval : Approval → Database → Database
update_approval approval d = record d {
  approvals = modify approval_key approval.id (write_approval approval) d.approvals;
}
