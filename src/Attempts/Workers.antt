-- ===== src/Attempts/Workers.antt =====
-- `claim_next_task` keeps the attempts bounded.
use aura_automated_user_rag.Base.{
  Option, none, some, inl, inr, sym, ap, ◌∙◌, subst, ◌≟◌, sorted, Bool-cases,
}
use aura_automated_user_rag.Domain.Events.{Ambient}
use aura_automated_user_rag.Domain.Missions.{Mission, MissionStatus, mission_status_eq}
use aura_automated_user_rag.Domain.Tasks.{task_status_eq, task_execution_status_eq}
use aura_automated_user_rag.Store.{Database}
use aura_automated_user_rag.Store.TaskRows.{tasks_of_mission, dependencies_of_mission}
use aura_automated_user_rag.Store.Rows.{get_mission_row}
use aura_automated_user_rag.Coordinator.{Coordinator}
use aura_automated_user_rag.Coordinator.Claim.{
  claim_body, claim_in_mission, claim_next_task, claim_order,
}
use aura_automated_user_rag.Coordinator.Claim.Effects.{nothing, won, claim_first-Claims}
use aura_automated_user_rag.Attempts.Bounded.{AllBounded, claim_row-AllBounded}

claim_in_mission-AllBounded :
    (g : Ambient) (c : Coordinator) (d : Database)
    → AllBounded d.tasks
    → AllBounded (claim_in_mission g c (record { committed = d; pending = d })).1.committed.tasks
unfolding claim_in_mission
claim_in_mission-AllBounded g c d all =
    elim (claim_first-Claims c (tasks_of_mission c.mission_id d)
      (dependencies_of_mission c.mission_id d) g
      (sorted claim_order (tasks_of_mission c.mission_id d))
      (record { committed = d; pending = d })) [
        | nothing e ↦ subst (λ r. AllBounded r.1.committed.tasks) (sym e) all
        | won g' candidate row cl _ _ held queued _ w ↦
            subst (λ rows. AllBounded rows) (sym (ap (λ d'. d'.tasks) w.durable ∙ w.tasks_are))
              (claim_row-AllBounded (g'.now 0) c.worker.id candidate.id d.tasks row held queued all)
      ]

claim_body-AllBounded :
    (g : Ambient) (c : Coordinator) (d : Database) (found : Option Mission)
    → AllBounded d.tasks
    → AllBounded (claim_body g c found (record { committed = d; pending = d })).1.committed.tasks
claim_body-AllBounded g c d none all = all
claim_body-AllBounded g c d (some m) all = elim (Bool-cases (m.status ≟ MissionStatus.executing)) [
  | inr idle ↦ rw idle all
  | inl active ↦ rw active (claim_in_mission-AllBounded g c d all)
]

-- `claim_next_task`
pub claim_next_task-AllBounded :
    (g : Ambient) (c : Coordinator) (d : Database)
    → AllBounded d.tasks
    → AllBounded (claim_next_task g c d).1.tasks
unfolding claim_next_task
claim_next_task-AllBounded g c d all =
    claim_body-AllBounded g c d (get_mission_row c.mission_id d) all
