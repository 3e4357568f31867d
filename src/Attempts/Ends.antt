-- ===== src/Attempts/Ends.antt =====
-- The end of a run of an agent keeps the attempts bounded.
use aura_automated_user_rag.Base.{
  inl, inr, Bool-cases, ℕ, false, String, Option, none, some, ◌≡◌, refl, sym, ap, ◌∙◌, subst,
  select, key-select, Result, ok, raise,
}
use aura_automated_user_rag.Domain.Events.{Ambient, Metadata}
use aura_automated_user_rag.Domain.Tasks.{Task, TaskStatus, TaskExecution}
use aura_automated_user_rag.Domain.Agents.Runs.{AgentRun}
use aura_automated_user_rag.Domain.Agents.Tools.{AgentDecision}
use aura_automated_user_rag.Store.{Database}
use aura_automated_user_rag.Store.Work.{with_uow}
use aura_automated_user_rag.Store.TaskRows.{task_key, get_task, update_task}
use aura_automated_user_rag.Store.RunRows.{refuses, change_run}
use aura_automated_user_rag.Runtime.Finish.{
  transition_task, record_end, complete_run, fail_run, completed_run, failed_run,
}
use aura_automated_user_rag.Runtime.Tasks.{
  written, moved_tasks, record_end-tasks, record_end-refused, transition_task-is,
}
use aura_automated_user_rag.Attempts.Bounded.{waiting, AllBounded, write_task-AllBounded}

module _ (g : Ambient) (target : TaskStatus) (still : waiting target ≡ false) where
  written-AllBounded :
      (task : Task) (k : ℕ) (r : Result Task) (d : Database)
      → transition_task task target ≡ r
      → select task_key k d.tasks ≡ some task
      → AllBounded d.tasks
      → AllBounded (written g target r d).tasks
  unfolding update_task
  written-AllBounded task k (raise e) d h found all = all
  written-AllBounded task k (ok moved) d h found all =
      let e : moved ≡ record task { status = target } = transition_task-is task moved target h in
      let new : Task = record moved { updated_at = g.now 3 } in
      let id_is : new.id ≡ k = ap (λ t. t.id) e ∙ key-select task_key k d.tasks found in
      write_task-AllBounded new task d.tasks
        (subst (λ i. select task_key i d.tasks ≡ some task) (sym id_is) found)
        (sym (ap (λ t. t.max_attempts) e)) (λ good. rw e (good.0, λ waits. absurd (cc))) all

  moved_tasks-AllBounded :
      (k : ℕ) (found : Option Task) (d : Database)
      → select task_key k d.tasks ≡ found
      → AllBounded d.tasks
      → AllBounded (moved_tasks g target found d)
  moved_tasks-AllBounded k none d h all = all
  moved_tasks-AllBounded k (some task) d h all =
      written-AllBounded task k (transition_task task target) d refl h all

  record_end-AllBounded :
      (run : AgentRun) (f : TaskExecution → TaskExecution) (event_type : String)
      (metadata : Metadata) (d : Database)
      → AllBounded d.tasks
      → AllBounded (with_uow (record_end g run target f event_type metadata) d).1.tasks
  unfolding get_task change_run
  record_end-AllBounded run f event_type metadata d all = elim (Bool-cases (refuses run d)) [
    | inl refused ↦ rw (record_end-refused g target run f event_type metadata d refused) all
    | inr taken ↦
        subst AllBounded (sym (record_end-tasks g target run f event_type metadata d taken).1)
          (moved_tasks-AllBounded run.task_id (get_task run.task_id d) (change_run run d) refl all)
  ]

pub complete_run-AllBounded :
    (g : Ambient) (run : AgentRun) (decision : AgentDecision) (d : Database)
    → AllBounded d.tasks
    → AllBounded (complete_run g run decision d).1.tasks
unfolding complete_run
complete_run-AllBounded g run decision d all =
    record_end-AllBounded g TaskStatus.succeeded refl (completed_run g run decision) _ _ _ d all

pub fail_run-AllBounded :
    (g : Ambient) (run : AgentRun) (reason : String) (d : Database)
    → AllBounded d.tasks
    → AllBounded (fail_run g run reason d).1.tasks
unfolding fail_run
fail_run-AllBounded g run reason d all =
    record_end-AllBounded g TaskStatus.failed refl (failed_run g run reason) _ _ _ d all
