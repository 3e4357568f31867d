-- ===== src/Coordinator/Lease.antt =====
-- The leases of a coordinator: `renew_lease`, `worker_heartbeat_touched`, `_assert_ownership` and
-- `_release_lease`.
pub mod Ownership
use aura_automated_user_rag.Base.{
  ℕ, ◌+◌, Bool, true, false, Option, none, some, List, [], ◌∷◌, ◌==◌, leb, ◌||◌, not, if◌then◌else◌,
  Result, stale_ownership_error,
}
use aura_automated_user_rag.Domain.Events.{Ambient}
use aura_automated_user_rag.Domain.Workers.{Worker, WorkerHeartbeat, TaskLease}
use aura_automated_user_rag.Store.{Database}
use aura_automated_user_rag.Store.Work.{
  Uow, pure, throw, reads, writes, commit, at_once, with_uow, ◌>>=◌, ◌>>◌,
}
use aura_automated_user_rag.Store.Rows.{
  get_lease, update_lease, create_heartbeat, get_worker, update_worker,
}
use aura_automated_user_rag.Coordinator.{Coordinator}

-- The test that opens `renew_lease` and `_assert_ownership`, on the lease that was read.
abbrev pub lost : ℕ → Coordinator → Option TaskLease → Bool
lost now c none = true
lost now c (some lease) = not (lease.worker_id == c.worker.id) || leb lease.lease_expires_at now

module _ (g : Ambient) (c : Coordinator) where
  abbrev pub touched : Option Worker → Database → Database
  touched none d = d
  touched (some worker) d =
      update_worker (record worker { last_heartbeat_at = some (g.now 6); updated_at = g.now 7 }) d

  -- `worker_heartbeat_touched`: a unit of work of its own.
  abbrev pub heartbeat_touched : Database → Database
  heartbeat_touched d = touched (get_worker c.worker.id d) d

  abbrev pub renewed : TaskLease → TaskLease
  renewed lease = record lease {
    lease_expires_at = g.now 1 + c.lease_ttl_seconds;
    last_heartbeat_at = some (g.now 2);
    renewed_count = lease.renewed_count + 1;
    updated_at = g.now 3;
  }

  abbrev pub heartbeat_of : TaskLease → WorkerHeartbeat
  heartbeat_of lease = record {
    worker_id = c.worker.id;
    task_execution_id = some lease.task_execution_id;
    task_id = some lease.task_id;
    lease_expires_at = some lease.lease_expires_at;
    metadata = [];
    created_at = g.now 5;
  }

  abbrev pub renew : Option TaskLease → Uow Bool
  renew none = pure false
  renew (some lease) = if lost (g.now 0) c (some lease) then pure false else do
    writes (update_lease (renewed lease))
    writes (create_heartbeat (heartbeat_of (renewed lease)))
    at_once heartbeat_touched
    commit
    pure true

  -- `renew_lease`
  unfoldable pub renew_lease : ℕ → Database → Result Bool × Database
  renew_lease lease_id = with_uow (reads (get_lease lease_id) >>= renew)

  abbrev pub owned : Option TaskLease → Uow TaskLease
  owned none = throw stale_ownership_error
  owned (some lease) =
      if lost (g.now 0) c (some lease) then throw stale_ownership_error else pure lease

  -- `_assert_ownership`
  unfoldable pub assert_ownership : ℕ → Database → Result TaskLease × Database
  assert_ownership lease_id = with_uow (reads (get_lease lease_id) >>= owned)

  abbrev pub expired : TaskLease → TaskLease
  expired lease = record lease { lease_expires_at = g.now 0; updated_at = g.now 1 }

  abbrev release : Option TaskLease → Uow (Unit {0})
  release none = pure tt
  release (some lease) =
      if lease.worker_id == c.worker.id
      then writes (update_lease (expired lease)) >> commit
      else pure tt

  -- `_release_lease`
  unfoldable pub release_lease : ℕ → Database → Result (Unit {0}) × Database
  release_lease lease_id = with_uow (reads (get_lease lease_id) >>= release)
