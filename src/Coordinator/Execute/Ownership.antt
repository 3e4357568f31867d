-- ===== src/Coordinator/Execute/Ownership.antt =====
-- A worker that lost its lease leaves the task alone.
use aura_automated_user_rag.Base.{
  ℕ, String, ◌≟◌, string_eq, false, some, ◌≡◌, refl, inl, inr, Bool-cases, Option-cases, ok, raise,
  stale_ownership_error,
}
use aura_automated_user_rag.Domain.Events.{Ambient}
use aura_automated_user_rag.Domain.Missions.{Mission}
use aura_automated_user_rag.Domain.Tasks.{Task, TaskExecution}
use aura_automated_user_rag.Domain.Workers.{TaskLease}
use aura_automated_user_rag.Domain.Executions.{ExecutionEnvironment}
use aura_automated_user_rag.Domain.Agents.Runs.{AgentRun}
use aura_automated_user_rag.Store.{Database}
use aura_automated_user_rag.Store.Rows.{get_mission_row, get_lease}
use aura_automated_user_rag.Coordinator.{Coordinator}
use aura_automated_user_rag.Coordinator.Lease.{lost, owned, assert_ownership}
use aura_automated_user_rag.Coordinator.Lease.Ownership.{Owned, lost_iff}
use aura_automated_user_rag.Coordinator.Execute.{
  Services, work_in, work_on, after_run, execute_claimed,
}

assert-lost :
    (g : Ambient) (c : Coordinator) (k : ℕ) (d : Database)
    → ((lease : TaskLease) → get_lease k d ≡ some lease → ¬ Owned (g.now 0) c lease)
    → assert_ownership g c k d ≡ (raise stale_ownership_error, d)
unfolding assert_ownership
assert-lost g c k d unowned = elim (Option-cases (get_lease k d)) [
  | inl gone ↦ rw (gone, owned) refl
  | inr (lease, found) ↦ elim (Bool-cases (lost (g.now 0) c (some lease))) [
    | inl missed ↦ rw (found, owned, missed) refl
    | inr held ↦ absurd (unowned lease found ((lost_iff (g.now 0) c lease).0 held))
  ]
]

-- If the mission is there, its environment was created with a worktree and the agent has run in
-- it, and the lease is then missing, expired or another worker's, the execution raises the error
-- of a stale owner and leaves the database as the run left it: the task is neither completed nor
-- failed.
pub execute_claimed-run_stale :
    (g : Ambient) (c : Coordinator) (services : Services) (task : Task) (execution : TaskExecution)
    (lease : TaskLease) (d d1 d2 : Database) (mission : Mission) (env : ExecutionEnvironment)
    (worktree_path : String) (agent_run : AgentRun)
    → get_mission_row c.mission_id d ≡ some mission
    → services.create_environment task execution mission d ≡ (ok env, d1)
    → env.worktree_path ≡ some worktree_path
    → (worktree_path ≟ "") ≡ false
    → services.run_agent task execution mission worktree_path d1 ≡ (ok agent_run, d2)
    → ((held : TaskLease) → get_lease lease.id d2 ≡ some held → ¬ Owned (g.now 0) c held)
    → execute_claimed g c services task execution lease d ≡ (raise stale_ownership_error, d2)
unfolding execute_claimed
execute_claimed-run_stale g c services task execution lease d d1 d2 mission env worktree_path
      agent_run found made path nonempty ran unowned =
    rw
      (
        found,
        work_on,
        made,
        path,
        work_in,
        nonempty,
        ran,
        after_run,
        assert-lost g c lease.id d2 unowned,
      )
      refl
