-- ===== src/Domain/Missions/Gates.antt =====
-- core/domain/missions/state_machine.py: what every history of a mission passes.
use aura_automated_user_rag.Base.{
  Bool, true, false, List, [], ◌∷◌, In, ◌≡◌, inl, inr, arith, elem, subst, Walk, stay, move, Guards,
  Walk-gate, ok, refl, Bool-cases,
}
use aura_automated_user_rag.Domain.Missions.{
  MissionStatus, mission_status_eq, Mission, valid_transitions, transition, transitions, created,
  planning, planned, approved_for_execution, executing, verifying, recovering, verified, pr_ready,
  awaiting_human_approval, merged, cancelled, aborted, failed_permanently,
}

transitions-Walk :
    (m : Mission) (path : List MissionStatus) (m' : Mission)
    → transitions m path ≡ ok m'
    → Walk valid_transitions m.status path m'.status
unfolding transitions transition
transitions-Walk m [] m' h =
    let e : m ≡ m' = cc in subst (λ x. Walk valid_transitions m.status [] x.status) e stay
transitions-Walk m (s ∷ ss) m' h = elim (Bool-cases (elem s (valid_transitions m.status))) [
  | inl allowed ↦ move allowed (transitions-Walk (record m { status = s }) ss m' (rw allowed at h))
  | inr refused ↦ absurd (ground arith)
]

-- The statuses before an approval, before a verification and before the human's decision.
abbrev unapproved : MissionStatus → Bool
unapproved created = true
unapproved planning = true
unapproved planned = true
unapproved cancelled = true
unapproved failed_permanently = true
unapproved _ = false

abbrev unmerged : MissionStatus → Bool
unmerged merged = false
unmerged awaiting_human_approval = false
unmerged _ = true

abbrev unverified : MissionStatus → Bool
unverified verified = false
unverified pr_ready = false
unverified s = unmerged s

unapproved-Guards : Guards valid_transitions approved_for_execution unapproved
unapproved-Guards s t h k = ground arith

unmerged-Guards : Guards valid_transitions awaiting_human_approval unmerged
unmerged-Guards s t h k = ground arith

unverified-Guards : Guards valid_transitions verified unverified
unverified-Guards s t h k = ground arith

-- A mission that was created, and is executing after any accepted transitions, was approved for
-- execution on the way.
pub executing-after-approved :
    (m : Mission) (path : List MissionStatus) (m' : Mission)
    → m.status ≡ created
    → transitions m path ≡ ok m'
    → m'.status ≡ executing
    → In approved_for_execution path
executing-after-approved m path m' start h end =
    Walk-gate valid_transitions approved_for_execution unapproved unapproved-Guards
      (transitions-Walk m path m' h) (rw start) (rw end)

-- A mission that was created, and is merged after any accepted transitions, was approved for
-- execution, was verified, and awaited the human approval on the way.
pub merged-after-gates :
    (m : Mission) (path : List MissionStatus) (m' : Mission)
    → m.status ≡ created
    → transitions m path ≡ ok m'
    → m'.status ≡ merged
    → In approved_for_execution path × In verified path × In awaiting_human_approval path
merged-after-gates m path m' start h end =
    let w = transitions-Walk m path m' h in
    (
      Walk-gate valid_transitions approved_for_execution unapproved unapproved-Guards w (rw start)
          (rw end),
      Walk-gate valid_transitions verified unverified unverified-Guards w (rw start) (rw end),
      Walk-gate valid_transitions awaiting_human_approval unmerged unmerged-Guards w (rw start)
          (rw end),
    )

-- The end of a mission.
abbrev pub terminal : MissionStatus → Bool
terminal merged = true
terminal cancelled = true
terminal aborted = true
terminal failed_permanently = true
terminal _ = false

-- Some accepted transitions lead a mission from its status to one that is terminal.
abbrev way_out : MissionStatus → List MissionStatus
way_out merged = []
way_out cancelled = []
way_out aborted = []
way_out failed_permanently = []
way_out verifying = failed_permanently ∷ []
way_out recovering = failed_permanently ∷ []
way_out verified = pr_ready ∷ awaiting_human_approval ∷ cancelled ∷ []
way_out pr_ready = awaiting_human_approval ∷ cancelled ∷ []
way_out _ = cancelled ∷ []

abbrev last_status : MissionStatus → MissionStatus
last_status merged = merged
last_status aborted = aborted
last_status failed_permanently = failed_permanently
last_status verifying = failed_permanently
last_status recovering = failed_permanently
last_status _ = cancelled

way_out_lem :
    (m : Mission) (s : MissionStatus)
    → m.status ≡ s
    → transitions m (way_out s) ≡ ok (record m { status = last_status s })
unfolding transitions transition
way_out_lem m s h = ground arith

terminal-last_status : (s : MissionStatus) → terminal (last_status s) ≡ true
terminal-last_status s = ground arith

-- From every status some accepted transitions lead a mission to a terminal status, and they
-- change nothing but its status.
pub mission_can_end :
    (m : Mission)
    → (path : List MissionStatus) × (s : MissionStatus) × (transitions m path
        ≡ ok (record m { status = s }))
      × (terminal s ≡ true)
mission_can_end m = (
  way_out m.status,
  last_status m.status,
  way_out_lem m m.status refl,
  terminal-last_status m.status,
)

-- A mission in a terminal status accepts no transition at all: the only history that goes through
-- is the empty one.
pub terminal_absorbs :
    (m : Mission) (path : List MissionStatus) (m' : Mission)
    → terminal m.status ≡ true
    → transitions m path ≡ ok m'
    → (path ≡ []) × (m' ≡ m)
unfolding transitions transition
terminal_absorbs m [] m' t h = (refl, cc)
terminal_absorbs m (s ∷ ss) m' t h = absurd (ground arith)
