-- ===== src/Missions/Orchestrator.antt =====
-- core/application/mission_orchestrator.py. `depth` bounds the recursion of the search for a cycle.
pub mod Planning
pub mod Progress
use aura_automated_user_rag.Base.{
  ℕ, suc, ◌*◌, Bool, true, Option, none, some, List, [], ◌∷◌, ◌==◌, ◌≟◌, ◌&&◌, length, filter,
  if◌then◌else◌, Result, value_error,
}
use aura_automated_user_rag.Dag.{validate_new_dependency}
use aura_automated_user_rag.Domain.Events.{Ambient, new_event, text}
use aura_automated_user_rag.Domain.Tasks.{Task, TaskDependency, TaskStatus, task_status_eq}
use aura_automated_user_rag.Store.{Database}
use aura_automated_user_rag.Store.Work.{
  Uow, pure, throw, reads, writes, lift, commit, with_uow, ◌>>=◌, ◌>>◌,
}
use aura_automated_user_rag.Store.TaskRows.{
  create_task, get_task, add_task_dependency, tasks_of_mission, dependencies_of_mission,
}
use aura_automated_user_rag.Store.Rows.{append_event}

-- `add_task`
unfoldable pub add_task : Ambient → Task → Database → Result (Unit {0}) × Database
add_task g task = with_uow (do
  writes (create_task task)
  writes (
      append_event (
        new_event g 0 "task.created" task.mission_id (some task.id) none
          (("title", text task.title) ∷ [])))
  commit)

module _ (depth mission_id : ℕ) (dependency : TaskDependency) where
  abbrev pub add_valid : List TaskDependency → Uow (Unit {0})
  add_valid existing_deps = do
    lift (validate_new_dependency depth dependency existing_deps)
    writes (add_task_dependency dependency)
    commit

  abbrev pub add_between : Option Task → Option Task → Uow (Unit {0})
  add_between (some t1) (some t2) =
      if (t1.mission_id == mission_id) && (t2.mission_id == mission_id)
      then reads (dependencies_of_mission mission_id) >>= add_valid
      else throw (value_error "Tasks must belong to the mission")
  add_between _ _ = throw (value_error "Both tasks must exist")

  -- `add_dependency`
  unfoldable pub add_dependency : Database → Result (Unit {0}) × Database
  add_dependency = with_uow (do
    t1 ← reads (get_task dependency.task_id)
    t2 ← reads (get_task dependency.depends_on_task_id)
    add_between t1 t2)

-- The percentage as a fraction, its numerator first: the source divides in floating point.
unfoldable pub progress : List Task → ℕ × ℕ
progress [] = (0, 1)
progress (task ∷ tasks) = (
  100 * length (filter (λ t. t.status ≟ TaskStatus.succeeded) (task ∷ tasks)),
  length (task ∷ tasks),
)

-- `calculate_progress`
unfoldable pub calculate_progress : ℕ → Database → ℕ × ℕ
calculate_progress mission_id d = progress (tasks_of_mission mission_id d)
