-- ===== src/Runtime/Refinement.antt =====
-- The end of a run, as a step of the state machines of all tasks.
use aura_automated_user_rag.Base.{
  ℕ, String, Option, none, some, List, [], ◌∷◌, ◌≡◌, inl, inr, refl, sym, ap, ◌∙◌, subst, ◌==◌,
  ==_iff, ◌≟◌, ◌&&◌, ◌||◌, Walk, stay, select, modify, select-modify, key-select, Bool-cases,
  Result, ok, raise, ok-injective, invalid_task_transition,
}
use aura_automated_user_rag.Domain.Events.{Ambient, Metadata}
use aura_automated_user_rag.Domain.Tasks.{
  Task, TaskStatus, task_status_eq, TaskExecution, valid_transitions, transition, transitions,
}
use aura_automated_user_rag.Domain.Tasks.Lifecycle.{transitions-Walk}
use aura_automated_user_rag.Domain.Agents.Runs.{AgentRun}
use aura_automated_user_rag.Domain.Agents.Tools.{AgentDecision}
use aura_automated_user_rag.Store.{Database}
use aura_automated_user_rag.Store.Work.{with_uow}
use aura_automated_user_rag.Store.TaskRows.{task_key, get_task, update_task, write_task}
use aura_automated_user_rag.Store.RunRows.{refuses, change_run}
use aura_automated_user_rag.Runtime.Finish.{
  transition_task, walk_through, record_end, complete_run, fail_run, completed_run, failed_run,
}
use aura_automated_user_rag.Runtime.Tasks.{
  written, moved_tasks, record_end-tasks, record_end-refused, transition_task-is,
}

-- The specification: a task is missing before and after, or its status goes along the transitions
-- of the state machine, none of them where it stays.
pub data Evolves : Option Task → Option Task → Type 0 where
  absent : Evolves none none
  walks :
      {t t' : Task} {path : List TaskStatus}
      → Walk valid_transitions t.status path t'.status
      → Evolves (some t) (some t')

abbrev pub Refines : Database → Database → Type 0
Refines d e = (k : ℕ) → Evolves (get_task k d) (get_task k e)

Evolves-refl : (o : Option Task) → Evolves o o
Evolves-refl none = absent
Evolves-refl (some t) = walks stay

-- A task that `_transition_task` moves goes along its state machine.
abbrev Walks : Task → Task → Type 0
Walks task moved = (path : List TaskStatus) × Walk valid_transitions task.status path moved.status

walk_through-Walks :
    (task moved : Task) (target : TaskStatus) (r : Result Task)
    → transition task target ≡ r
    → walk_through task target r ≡ ok moved
    → Walks task moved
unfolding transitions
walk_through-Walks task moved target (ok direct) h walked =
    (target ∷ [], transitions-Walk task (target ∷ []) moved (rw h walked))
walk_through-Walks task moved target (raise e) h walked =
    elim (Bool-cases (
      (task.status ≟ TaskStatus.queued)
      && ((target ≟ TaskStatus.succeeded) || (target ≟ TaskStatus.failed)))) [
        | inl queued ↦ (
          TaskStatus.running ∷ target ∷ [],
          transitions-Walk task (TaskStatus.running ∷ target ∷ []) moved (rw queued at walked),
        )
        | inr not_queued ↦
            let bad : raise invalid_task_transition ≡ ok moved = rw not_queued at walked in
            absurd (cc)
      ]

transition_task-Walks :
    (task moved : Task) (target : TaskStatus)
    → transition_task task target ≡ ok moved
    → Walks task moved
unfolding transition_task
transition_task-Walks task moved target h = elim (Bool-cases (task.status ≟ target)) [
  | inl same ↦
      let e : task ≡ moved = ok-injective (rw same at h) in
      ([], subst (λ (t : Task). Walk valid_transitions task.status [] t.status) e stay)
  | inr other ↦ walk_through-Walks task moved target (transition task target) refl (rw other at h)
]

module _ (g : Ambient) (target : TaskStatus) where
  written-Evolves :
      (task : Task) (i : ℕ) (r : Result Task) (d : Database)
      → transition_task task target ≡ r
      → select task_key i d.tasks ≡ some task
      → (k : ℕ)
      → Evolves (select task_key k d.tasks) (select task_key k (written g target r d).tasks)
  unfolding update_task
  written-Evolves task i (raise e) d h found k = Evolves-refl (select task_key k d.tasks)
  written-Evolves task i (ok moved) d h found k =
      let new : Task = record moved { updated_at = g.now 3 } in
      let law = select-modify task_key (write_task new) (λ a. refl) new.id k d.tasks in
      let id_is : new.id ≡ i =
        ap (λ t. t.id) (transition_task-is task moved target h)
        ∙ key-select task_key i d.tasks found in
      elim (Bool-cases (new.id == k)) [
        | inr other ↦
            subst (Evolves (select task_key k d.tasks)) (sym (rw other at law))
              (Evolves-refl (select task_key k d.tasks))
        | inl own ↦
            let here_is : select task_key k d.tasks ≡ some task =
              subst (λ j. select task_key j d.tasks ≡ some task)
                (sym id_is ∙ (==_iff new.id k).0 own) found in
            let after_is : select task_key k (modify task_key new.id (write_task new) d.tasks)
                ≡ some (write_task new task) =
              rw (own, here_is) at law in
            let (path, w) = transition_task-Walks task moved target h in
            subst
              (λ o. Evolves o (select task_key k (modify task_key new.id (write_task new) d.tasks)))
              (sym here_is) (subst (Evolves (some task)) (sym after_is) (walks w))
      ]

  moved_tasks-Evolves :
      (i : ℕ) (found : Option Task) (d : Database)
      → select task_key i d.tasks ≡ found
      → (k : ℕ)
      → Evolves (select task_key k d.tasks) (select task_key k (moved_tasks g target found d))
  moved_tasks-Evolves i none d h k = Evolves-refl (select task_key k d.tasks)
  moved_tasks-Evolves i (some task) d h k =
      written-Evolves task i (transition_task task target) d refl h k

  record_end-Refines :
      (run : AgentRun) (f : TaskExecution → TaskExecution) (event_type : String)
      (metadata : Metadata) (d : Database)
      → Refines d (with_uow (record_end g run target f event_type metadata) d).1
  unfolding get_task change_run
  record_end-Refines run f event_type metadata d k = elim (Bool-cases (refuses run d)) [
    | inl refused ↦
        rw (record_end-refused g target run f event_type metadata d refused)
          (Evolves-refl (select task_key k d.tasks))
    | inr taken ↦
        subst (λ rows. Evolves (select task_key k d.tasks) (select task_key k rows))
          (sym (record_end-tasks g target run f event_type metadata d taken).1)
          (moved_tasks-Evolves run.task_id (get_task run.task_id d) (change_run run d) refl k)
  ]

-- However a run ends, every task that there was is there afterwards, no task is new, and the status
-- of each has gone along the transitions of its state machine, or stayed.
pub run_end-Refines :
    (g : Ambient) (run : AgentRun) (decision : AgentDecision) (reason : String) (d : Database)
    → Refines d (complete_run g run decision d).1 × Refines d (fail_run g run reason d).1
unfolding complete_run fail_run
run_end-Refines g run decision reason d = (
  record_end-Refines g TaskStatus.succeeded (completed_run g run decision) _ _ _ d,
  record_end-Refines g TaskStatus.failed (failed_run g run reason) _ _ _ d,
)
