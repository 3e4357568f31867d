-- ===== src/Coordinator/Samples.antt =====
-- Two workers on a mission: task 2 may be claimed first, task 3 waits for it, and task 4 is next.
use aura_automated_user_rag.Base.{
  ℕ, ◌+◌, true, none, some, [], ◌∷◌, ◌≡◌, ◌≢◌, ◌↔◌, refl, arith, ◌==◌, ok, select, modify, sorted,
}
use aura_automated_user_rag.Domain.Events.{Ambient, shift}
use aura_automated_user_rag.Domain.Missions.{MissionStatus}
use aura_automated_user_rag.Domain.Tasks.{TaskStatus}
use aura_automated_user_rag.Domain.Workers.{Worker, WorkerStatus, transition}
use aura_automated_user_rag.Domain.Samples.{ambient, task_of, after, database_of}
use aura_automated_user_rag.Store.{Database}
use aura_automated_user_rag.Store.TaskRows.{
  tasks_of_mission, dependencies_of_mission, claim_task, claim_row,
}
use aura_automated_user_rag.Store.Rows.{
  get_mission_row, append_event, add_execution, create_lease, get_lease, update_worker,
}
use aura_automated_user_rag.Coordinator.{Coordinator}
use aura_automated_user_rag.Coordinator.Claim.{
  Claimed, dependencies_met, claim_first, record_claim, claim_in_mission, claim_next_task,
  new_execution, new_lease,
}
use aura_automated_user_rag.Coordinator.Claim.Safety.{
  Rightful, Recorded, claim_next_task-Rightful, claims_differ,
}
use aura_automated_user_rag.Coordinator.Lease.{renew_lease, assert_ownership}
use aura_automated_user_rag.Coordinator.Lease.Ownership.{
  Owned, Renewal, renew_lease-Renewal, assert_ownership_lem, claim-renew,
}

abbrev worker : ℕ → Worker
worker id = record {
  id = id;
  name = "aura-worker";
  status = WorkerStatus.available;
  capabilities = "CODING" ∷ [];
  capabilities_enum = [];
  last_heartbeat_at = none;
  metadata = [];
  created_at = 0;
  updated_at = 0;
}

abbrev pub coordinator : ℕ → Coordinator
coordinator id = record {
  mission_id = 1;
  agent_id = 7;
  worker_name = "aura-worker";
  capabilities = "CODING" ∷ [];
  lease_ttl_seconds = 90;
  worker = worker id;
  locked = λ k. k == 5;
}

abbrev later : Ambient
later = record { uuid = λ k. k + 2000; now = λ k. k + 80 }

abbrev database : Database
database =
    database_of MissionStatus.executing
      (task_of 1 TaskStatus.succeeded
        ∷ task_of 2 TaskStatus.queued
        ∷ task_of 3 TaskStatus.queued
        ∷ task_of 4 TaskStatus.queued
        ∷ [])
      (after 2 1 ∷ after 3 2 ∷ [])

-- The claim of a task, and the database that it leaves.
abbrev claimed : Ambient → ℕ → ℕ → Claimed
claimed g worker_id task_id =
    let task = claim_row (g.now 0) worker_id (task_of task_id TaskStatus.queued) in
    record {
      task = task;
      execution = new_execution g (coordinator worker_id) task;
      lease = new_lease g (coordinator worker_id) task;
      worker = record (worker worker_id) { status = WorkerStatus.busy; updated_at = g.now 5 };
    }

abbrev database_after : Database
database_after = (claim_next_task ambient (coordinator 8) database).1

first_claim :
    claim_next_task ambient (coordinator 8) database
    ≡ (ok (some (claimed (shift 8 ambient) 8 2)), database_after)
unfolding claim_next_task claim_in_mission claim_first record_claim dependencies_met claim_task
    get_mission_row tasks_of_mission dependencies_of_mission select modify sorted append_event
    add_execution create_lease update_worker transition
first_claim = refl

claim_next_task-Rightful_example :
    Rightful (coordinator 8) database (claimed (shift 8 ambient) 8 2)
    × Recorded (coordinator 8) database database_after (claimed (shift 8 ambient) 8 2)
claim_next_task-Rightful_example =
    claim_next_task-Rightful ambient (coordinator 8) database database_after
      (claimed (shift 8 ambient) 8 2) first_claim

claims_differ_example :
    (claimed (shift 8 ambient) 8 2).task.id ≢ (claimed (shift 24 later) 9 4).task.id
unfolding claim_next_task claim_in_mission claim_first record_claim dependencies_met claim_task
    get_mission_row tasks_of_mission dependencies_of_mission select modify sorted append_event
    add_execution create_lease update_worker transition
claims_differ_example =
    claims_differ ambient later (coordinator 8) (coordinator 9) database database_after
      (claim_next_task later (coordinator 9) database_after).1 (claimed (shift 8 ambient) 8 2)
      (claimed (shift 24 later) 9 4) first_claim refl

renew_lease-Renewal_example :
    Renewal later
      (coordinator 8)
      1009
      database_after
      (renew_lease later (coordinator 8) 1009 database_after)
renew_lease-Renewal_example = renew_lease-Renewal later (coordinator 8) 1009 database_after

assert_ownership_lem_example :
    (assert_ownership later (coordinator 8) 1009 database_after
      ≡ (ok (claimed (shift 8 ambient) 8 2).lease, database_after))
    ↔ ((get_lease 1009 database_after ≡ some (claimed (shift 8 ambient) 8 2).lease)
        × Owned 80 (coordinator 8) (claimed (shift 8 ambient) 8 2).lease)
assert_ownership_lem_example =
    assert_ownership_lem later (coordinator 8) 1009 database_after
      (claimed (shift 8 ambient) 8 2).lease

claim-renew_example : (renew_lease later (coordinator 8) 1009 database_after).0 ≡ ok true
unfolding get_lease select
claim-renew_example =
    claim-renew ambient later (coordinator 8) database database_after
      (claimed (shift 8 ambient) 8 2) first_claim refl (omega arith)
