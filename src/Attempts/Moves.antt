-- ===== src/Attempts/Moves.antt =====
-- The transitions of a task keep its attempts bounded.
use aura_automated_user_rag.Base.{
  ℕ, false, Option, none, some, List, [], ◌∷◌, ◌≡◌, inl, inr, refl, sym, ap, subst, arith, elem,
  select, key-select, Bool-cases, ok, ok-injective,
}
use aura_automated_user_rag.Domain.Events.{Ambient}
use aura_automated_user_rag.Domain.Missions.{mission_status_eq}
use aura_automated_user_rag.Domain.Tasks.{
  Task, TaskStatus, task_status_eq, TaskExecution, task_execution_status_eq, valid_transitions,
  transition, transitions,
}
use aura_automated_user_rag.Domain.Workers.{TaskLease}
use aura_automated_user_rag.Store.{Database}
use aura_automated_user_rag.Store.TaskRows.{task_key, get_task}
use aura_automated_user_rag.Store.Rows.{update_execution}
use aura_automated_user_rag.Coordinator.{Coordinator}
use aura_automated_user_rag.Coordinator.Finish.{change_execution}
use aura_automated_user_rag.Attempts.Bounded.{waiting, Bounded, AllBounded}
use aura_automated_user_rag.Attempts.Sessions.{Keeps, pure-Keeps, quiet-Keeps, Fits}

-- A task after a transition.
pub transition-is :
    (task moved : Task) (to : TaskStatus)
    → transition task to ≡ ok moved
    → moved ≡ record task { status = to }
unfolding transition
transition-is task moved to h = elim (Bool-cases (elem to (valid_transitions task.status))) [
  | inl allowed ↦ ok-injective (sym (rw allowed at h))
  | inr refused ↦ absurd (ground arith)
]

pub get_task-Fits :
    (k : ℕ) (d : Database) (task : Task)
    → get_task k d ≡ some task
    → AllBounded d.tasks
    → Fits task d.tasks × Bounded task
unfolding get_task
get_task-Fits k d task found all =
    let id_is : task.id ≡ k = key-select task_key k d.tasks found in
    let stored : select task_key task.id d.tasks ≡ some task =
      subst (λ i. select task_key i d.tasks ≡ some task) (sym id_is) found in
    ((all, (task, stored, refl)), all k task found)

-- What a transition leaves as it was, and that the task is then bounded where it does not wait.
pub record Moved (task moved : Task) : Type 0 where
  pub id_is : moved.id ≡ task.id
  pub most_is : moved.max_attempts ≡ task.max_attempts
  pub count_is : moved.attempt_count ≡ task.attempt_count

pub transition-Moved :
    (task moved : Task) (to : TaskStatus) → transition task to ≡ ok moved → Moved task moved
transition-Moved task moved to h =
    let e : moved ≡ record task { status = to } = transition-is task moved to h in
    record {
      id_is = ap (λ t. t.id) e;
      most_is = ap (λ t. t.max_attempts) e;
      count_is = ap (λ t. t.attempt_count) e;
    }

pub transition-Bounded :
    (task moved : Task) (to : TaskStatus)
    → waiting to ≡ false
    → transition task to ≡ ok moved
    → Bounded task
    → Bounded moved
transition-Bounded task moved to still h bounded =
    let e : moved ≡ record task { status = to } = transition-is task moved to h in
    subst Bounded (sym e) (bounded.0, λ waits. absurd (cc))

pub requeued-is :
    (task queued : Task)
    → transitions task (TaskStatus.retrying ∷ TaskStatus.queued ∷ []) ≡ ok queued
    → queued ≡ record task { status = TaskStatus.queued }
unfolding transitions transition
requeued-is task queued h =
    elim (Bool-cases (elem TaskStatus.retrying (valid_transitions task.status))) [
      | inl allowed ↦ ok-injective (sym (rw allowed at h))
      | inr refused ↦ absurd (ground arith)
    ]

module _ (g : Ambient) (c : Coordinator) (task : Task) (execution : TaskExecution)
    (lease : TaskLease) where
  pub change_execution-Keeps :
      (Q : List Task → Type 0) (f : TaskExecution → TaskExecution) (found : Option TaskExecution)
      → Keeps Q (change_execution g c task execution lease f found)
  unfolding update_execution
  change_execution-Keeps Q f none = pure-Keeps Q tt
  change_execution-Keeps Q f (some found) = quiet-Keeps Q (update_execution (f found)) (λ d. refl)
