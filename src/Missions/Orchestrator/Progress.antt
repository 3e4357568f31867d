-- ===== src/Missions/Orchestrator/Progress.antt =====
-- The progress of a mission.
use aura_automated_user_rag.Base.{
  ℕ, suc, ◌*◌, ◌<◌, ◌≤◌, Bool, true, List, [], ◌∷◌, ◌≡◌, ◌≢◌, ◌↔◌, inl, inr, refl, arith, ◌≟◌, All,
  Bool-cases, filter, length,
}
use aura_automated_user_rag.Domain.Tasks.{Task, TaskStatus, task_status_eq}
use aura_automated_user_rag.Store.{Database}
use aura_automated_user_rag.Store.TaskRows.{tasks_of_mission}
use aura_automated_user_rag.Missions.Orchestrator.{progress, calculate_progress}

module _ {A : Type 0} (p : A → Bool) where
  length-filter : (xs : List A) → length (filter p xs) ≤ length xs
  length-filter [] = omega arith
  length-filter (x ∷ xs) = elim (Bool-cases (p x)) [
    | inl kept ↦ rw kept (omega (arith, length-filter xs))
    | inr out ↦ rw out (omega (arith, length-filter xs))
  ]

  filter-All : (xs : List A) → length (filter p xs) ≡ length xs → All (λ x. p x ≡ true) xs
  filter-All [] h = tt
  filter-All (x ∷ xs) h = elim (Bool-cases (p x)) [
    | inl kept ↦
        let fewer : suc (length (filter p xs)) ≡ suc (length xs) = rw kept at h in
        (kept, filter-All xs (omega (arith, fewer)))
    | inr out ↦
        let fewer : length (filter p xs) ≡ suc (length xs) = rw out at h in
        absurd (omega (arith, fewer, length-filter xs))
  ]

  All-filter : (xs : List A) → All (λ x. p x ≡ true) xs → length (filter p xs) ≡ length xs
  All-filter [] h = refl
  All-filter (x ∷ xs) h = rw (h.0) (omega (arith, All-filter xs h.1))

abbrev succeeded : Task → Bool
succeeded t = t.status ≟ TaskStatus.succeeded

progress_complete :
    (tasks : List Task)
    → ((progress tasks).0 ≤ 100 * (progress tasks).1)
      × (0 < (progress tasks).1)
      × (((progress tasks).0 ≡ 100 * (progress tasks).1)
          ↔ ((tasks ≢ []) × All (λ t. succeeded t ≡ true) tasks))
unfolding progress
progress_complete [] =
    (omega arith, omega arith, (λ h. absurd (omega (arith, h)), λ h. absurd (h.0 refl)))
progress_complete (t ∷ tasks) = (
  omega (arith, length-filter succeeded (t ∷ tasks)),
  omega arith,
  (
    λ h. (λ e. cc, filter-All succeeded (t ∷ tasks) (omega (arith, h))),
    λ h. omega (arith, All-filter succeeded (t ∷ tasks) h.1),
  ),
)

-- The progress of a mission is a fraction of at most a hundred percent, and it is a hundred percent
-- exactly when the mission has tasks and all of them have SUCCEEDED.
pub calculate_progress_complete :
    (mission_id : ℕ) (d : Database)
    → ((calculate_progress mission_id d).0 ≤ 100 * (calculate_progress mission_id d).1)
      × (0 < (calculate_progress mission_id d).1)
      × (((calculate_progress mission_id d).0 ≡ 100 * (calculate_progress mission_id d).1) ↔ (
          (tasks_of_mission mission_id d ≢ [])
          × All (λ t. (t.status ≟ TaskStatus.succeeded) ≡ true) (tasks_of_mission mission_id d)))
unfolding calculate_progress
calculate_progress_complete mission_id d = progress_complete (tasks_of_mission mission_id d)
