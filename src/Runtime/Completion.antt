-- ===== src/Runtime/Completion.antt =====
-- The end of a run and the completion of its task by the coordinator, one after the other.
use aura_automated_user_rag.Base.{
  [], ◌∷◌, false, inl, inr, Bool-cases, data_error, ℕ, true, Option, some, ◌≡◌, refl, sym, ap, ◌∙◌,
  subst, ==_iff, ◌==◌, select, select-modify, key-select, Result, ok, raise, Exception,
  runtime_error,
}
use aura_automated_user_rag.Domain.Events.{ident, Ambient, shift}
use aura_automated_user_rag.Domain.Tasks.{
  Task, TaskStatus, task_status_eq, TaskExecution, transition,
}
use aura_automated_user_rag.Domain.Workers.{TaskLease}
use aura_automated_user_rag.Domain.Agents.Runs.{
  AgentRun, AgentRunStatus, transition as run_transition,
}
use aura_automated_user_rag.Domain.Agents.Tools.{AgentDecision}
use aura_automated_user_rag.Store.{Database}
use aura_automated_user_rag.Store.TaskRows.{task_key, get_task, update_task, write_task}
use aura_automated_user_rag.Store.RunRows.{refuses, change_run}
use aura_automated_user_rag.Coordinator.{Coordinator}
use aura_automated_user_rag.Coordinator.Lease.{assert_ownership}
use aura_automated_user_rag.Coordinator.Finish.{after_ownership, complete_task}
use aura_automated_user_rag.Attempts.Completion.{assert_ownership_keeps}
use aura_automated_user_rag.Runtime.Finish.{
  replaced, succeeded_execution, transition_task, complete_run, completed_run,
}
use aura_automated_user_rag.Runtime.Tasks.{
  written, moved_tasks, record_end-tasks, record_end-refused,
}

running-succeeds :
    (task : Task)
    → task.status ≡ TaskStatus.running
    → transition_task task TaskStatus.succeeded ≡ ok (record task { status = TaskStatus.succeeded })
unfolding transition_task transition
running-succeeds task h = rw h refl

completed_run-task :
    (g : Ambient) (run : AgentRun) (decision : AgentDecision)
    → run.status ≡ AgentRunStatus.running
    → (completed_run g run decision).task_id ≡ run.task_id
unfolding run_transition
completed_run-task g run decision h = rw h refl

module _ (g : Ambient) (run : AgentRun) (decision : AgentDecision) (d : Database) (task : Task)
    (found : get_task run.task_id d ≡ some task) (running : task.status ≡ TaskStatus.running)
    (run_running : run.status ≡ AgentRunStatus.running) (last : AgentRun)
    (completes : (complete_run g run decision d).0 ≡ ok last) where
  abbrev succeeded_task : Task
  succeeded_task =
      write_task (record (record task { status = TaskStatus.succeeded }) { updated_at = g.now 3 })
        task

  completes-taken : refuses (completed_run g run decision) d ≡ false
  unfolding complete_run
  completes-taken = elim (Bool-cases (refuses (completed_run g run decision) d)) [
    | inr taken ↦ taken
    | inl refused ↦
        let stopped =
          ap (λ (o : Result (Unit {0}) × Database). replaced (completed_run g run decision) o.0)
            (record_end-refused g TaskStatus.succeeded (completed_run g run decision)
              (succeeded_execution g (completed_run g run decision).id) "agent.run.completed"
              (("agent_run_id", ident (completed_run g run decision).id)
                ∷ ("result", (completed_run g run decision).final_result)
                ∷ [])
              d refused) in
        let bad : raise data_error ≡ ok last = sym stopped ∙ completes in absurd (cc)
  ]

  -- After a run that completes, its task is SUCCEEDED if it was RUNNING.
  complete_run-succeeded :
      get_task run.task_id (complete_run g run decision d).1 ≡ some succeeded_task
  unfolding complete_run get_task update_task change_run
  complete_run-succeeded =
      let done = completed_run g run decision in
      let taken = completes-taken in
      let same : done.task_id ≡ run.task_id = completed_run-task g run decision run_running in
      let found_done : select task_key done.task_id d.tasks ≡ some task =
        subst (λ i. select task_key i d.tasks ≡ some task) (sym same) found in
      let id_is : task.id ≡ run.task_id = key-select task_key run.task_id d.tasks found in
      let same_key : (task.id == run.task_id) ≡ true = (==_iff task.id run.task_id).1 id_is in
      ap (select task_key run.task_id)
        (record_end-tasks g TaskStatus.succeeded done _ _ _ d taken).1
      ∙ ap
          (λ (o : Option Task).
            select task_key run.task_id (moved_tasks g TaskStatus.succeeded o (change_run done d)))
          found_done
      ∙ ap
          (λ (r : Result Task).
            select task_key run.task_id
              (written g TaskStatus.succeeded r (change_run done d)).tasks)
          (running-succeeds task running)
      ∙ select-modify task_key
          (write_task
            (record (record task { status = TaskStatus.succeeded }) { updated_at = g.now 3 }))
          (λ a. refl) task.id run.task_id d.tasks
      ∙ rw (same_key, found) refl

  module _ (g' : Ambient) (c : Coordinator) (task' : Task) (execution : TaskExecution)
      (lease : TaskLease) (agent_run_id : ℕ) (same_task : task'.id ≡ run.task_id) where
    after_ownership-raises :
        (r : Result TaskLease) (e : Database)
        → get_task run.task_id e ≡ some succeeded_task
        → (x : Exception) × (after_ownership g' c task' execution lease agent_run_id (r, e)
            ≡ (raise x, e))
    unfolding transition
    after_ownership-raises (raise x) e h = (x, refl)
    after_ownership-raises (ok own) e h =
        (runtime_error "Cannot complete task", rw (same_task, h) refl)

    -- The runtime and the coordinator one after the other: if a run that is RUNNING completes while
    -- its task is RUNNING, then the completion of the task by the coordinator raises, whoever owns
    -- the lease, and it stores nothing: the task stays as the runtime left it.
    pub complete_run-complete_task :
        (x : Exception) × (complete_task g' c task' execution lease agent_run_id
            (complete_run g run decision d).1
          ≡ (raise x, (complete_run g run decision d).1))
    unfolding complete_task
    complete_run-complete_task =
        let e = (complete_run g run decision d).1 in
        let kept = assert_ownership_keeps (shift 5 g') c lease.id e in
        let r = (assert_ownership (shift 5 g') c lease.id e).0 in
        let (x, raises) = after_ownership-raises r e complete_run-succeeded in
        (
          x,
          ap (λ (e' : Database). after_ownership g' c task' execution lease agent_run_id (r, e'))
                kept
              ∙ raises,
        )
