-- ===== src/Domain/Tasks/Lifecycle.antt =====
-- core/domain/tasks/state_machine.py: what every history of a task passes.
use aura_automated_user_rag.Base.{
  Bool, true, false, List, [], ◌∷◌, In, ◌≡◌, inl, inr, arith, elem, subst, Walk, stay, move, Guards,
  Walk-gate, ok, Bool-cases,
}
use aura_automated_user_rag.Domain.Tasks.{
  TaskStatus, task_status_eq, Task, valid_transitions, transition, transitions,
}

pub transitions-Walk :
    (t : Task) (path : List TaskStatus) (t' : Task)
    → transitions t path ≡ ok t'
    → Walk valid_transitions t.status path t'.status
unfolding transitions transition
transitions-Walk t [] t' h =
    let e : t ≡ t' = cc in subst (λ x. Walk valid_transitions t.status [] x.status) e stay
transitions-Walk t (s ∷ ss) t' h = elim (Bool-cases (elem s (valid_transitions t.status))) [
  | inl allowed ↦ move allowed (transitions-Walk (record t { status = s }) ss t' (rw allowed at h))
  | inr refused ↦ absurd (ground arith)
]

-- The statuses that a task has before it is ready, before it is queued, and before it ran.
abbrev unready : TaskStatus → Bool
unready TaskStatus.pending = true
unready TaskStatus.blocked = true
unready TaskStatus.cancelled = true
unready _ = false

abbrev unqueued : TaskStatus → Bool
unqueued TaskStatus.ready = true
unqueued s = unready s

abbrev unrun : TaskStatus → Bool
unrun TaskStatus.queued = true
unrun s = unqueued s

unready-Guards : Guards valid_transitions TaskStatus.ready unready
unready-Guards s t h k = ground arith

unqueued-Guards : Guards valid_transitions TaskStatus.queued unqueued
unqueued-Guards s t h k = ground arith

unrun-Guards : Guards valid_transitions TaskStatus.running unrun
unrun-Guards s t h k = ground arith

-- A task that was pending, and is succeeded or failed after any accepted transitions, was ready,
-- was queued and was running on the way.
pub finished-after-running :
    (t : Task) (path : List TaskStatus) (t' : Task)
    → t.status ≡ TaskStatus.pending
    → transitions t path ≡ ok t'
    → elem t'.status (TaskStatus.succeeded ∷ TaskStatus.failed ∷ []) ≡ true
    → In TaskStatus.ready path × In TaskStatus.queued path × In TaskStatus.running path
finished-after-running t path t' start h end =
    let w = transitions-Walk t path t' h in
    (
      Walk-gate valid_transitions TaskStatus.ready unready unready-Guards w (rw start)
          (ground arith),
      Walk-gate valid_transitions TaskStatus.queued unqueued unqueued-Guards w (rw start)
          (ground arith),
      Walk-gate valid_transitions TaskStatus.running unrun unrun-Guards w (rw start) (ground arith),
    )
