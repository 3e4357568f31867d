-- ===== src/Missions/Service/Consent.antt =====
-- A mission moves on only with the approval that it waits for.
use mathlib.Core.Option
use aura_automated_user_rag.Base.{
  ℕ, true, Option, none, some, String, List, [], ◌∷◌, ◌≡◌, ◌⊎◌, inl, inr, refl, sym, ap, ◌∙◌, subst,
  arith, ◌==◌, ==_iff, ◌≟◌, ◌&&◌, elem, select, modify, key-select, select-modify, Bool-cases,
  Result, ok, raise, ok-injective, Exception, invalid_mission_transition, assertion_error,
  if◌then◌else◌,
}
use aura_automated_user_rag.Domain.Events.{Ambient, ident, text}
use aura_automated_user_rag.Domain.Missions.{
  Mission, MissionStatus, mission_status_eq, valid_transitions, transition,
}
use aura_automated_user_rag.Domain.Approvals.{
  Approval, ApprovalStatus, ApprovalType, approval_status_eq, approval_type_eq, status_value,
}
use aura_automated_user_rag.Store.{Database}
use aura_automated_user_rag.Store.Work.{Session, and_then}
use aura_automated_user_rag.Store.Rows.{
  mission_key, get_mission_row, update_mission_row, write_mission, append_event, get_approval,
  update_approval,
}
use aura_automated_user_rag.Missions.Service.{
  mission_event, move_to, move_from, follow, resolve, resolved, resolution, resolve_approval, close,
}

transition-is :
    (m moved : Mission) (to : MissionStatus)
    → transition m to ≡ ok moved
    → moved ≡ record m { status = to }
unfolding transition
transition-is m moved to h = elim (Bool-cases (elem to (valid_transitions m.status))) [
  | inl allowed ↦ ok-injective (sym (rw allowed at h))
  | inr refused ↦ absurd (ground arith)
]

-- The approvals that let a mission go on, and from which status to which.
pub data Licence (a : Approval) (status : ApprovalStatus)
    : MissionStatus → MissionStatus → Type 0 where
  to_execute :
      status ≡ ApprovalStatus.approved
      → a.approval_type ≡ ApprovalType.execution
      → Licence a status MissionStatus.planned MissionStatus.approved_for_execution
  to_merge :
      status ≡ ApprovalStatus.approved
      → a.approval_type ≡ ApprovalType.merge
      → Licence a status MissionStatus.awaiting_human_approval MissionStatus.merged

-- What a step does to the missions: nothing, or it raises, or it moves one mission.
data Moves (from to : MissionStatus) (found : Option Mission) (s : Session)
    (r : Result (Unit {0}) × Session) : Type 0 where
  raised : (e : Exception) → r.0 ≡ raise e → r.1.committed ≡ s.committed → Moves from to found s r
  kept : r.0 ≡ ok tt → r.1.pending.missions ≡ s.pending.missions → Moves from to found s r
  moved :
      (m : Mission)
      → found ≡ some m
      → m.status ≡ from
      → elem to (valid_transitions from) ≡ true
      → r.0 ≡ ok tt
      → r.1.pending.missions
        ≡ modify mission_key m.id (write_mission (record m { status = to })) s.pending.missions
      → Moves from to found s r

module _ (g : Ambient) where
  move_to-Moves :
      (from to : MissionStatus) (m : Mission) (r : Result Mission) (s : Session)
      → transition m to ≡ r
      → m.status ≡ from
      → Moves from to (some m) s (move_to g to m r s)
  unfolding transition update_mission_row append_event
  move_to-Moves from to m (raise e) s h same = raised e refl refl
  move_to-Moves from to m (ok updated) s h same =
      elim (Bool-cases (elem to (valid_transitions m.status))) [
        | inl allowed ↦
            let is : updated ≡ record m { status = to } = ok-injective (sym (rw allowed at h)) in
            let allowed_from : elem to (valid_transitions from) ≡ true =
              subst (λ x. elem to (valid_transitions x) ≡ true) same allowed in
            moved m refl same allowed_from refl
              (ap (λ x. modify mission_key x.id (write_mission x) s.pending.missions) is)
        | inr refused ↦ absurd (ground arith)
      ]

  move_from-Moves :
      (from to : MissionStatus) (found : Option Mission) (s : Session)
      → Moves from to found s (move_from g from to found s)
  move_from-Moves from to none s = raised assertion_error refl refl
  move_from-Moves from to (some m) s = elim (Bool-cases (m.status ≟ from)) [
    | inl same ↦ rw same (move_to-Moves from to m (transition m to) s refl (ground arith))
    | inr other ↦ rw other (kept refl refl)
  ]

-- What the steps after the event do.
data Follows (a : Approval) (status : ApprovalStatus) (s : Session)
    (r : Result (Unit {0}) × Session) : Type 0 where
  raised : (e : Exception) → r.0 ≡ raise e → r.1.committed ≡ s.committed → Follows a status s r
  kept : r.0 ≡ ok tt → r.1.pending.missions ≡ s.pending.missions → Follows a status s r
  moved :
      (m : Mission) (from to : MissionStatus)
      → Licence a status from to
      → get_mission_row a.mission_id s.pending ≡ some m
      → m.status ≡ from
      → r.0 ≡ ok tt
      → r.1.pending.missions
        ≡ modify mission_key m.id (write_mission (record m { status = to })) s.pending.missions
      → Follows a status s r

Moves-Follows :
    (a : Approval) (status : ApprovalStatus) (from to : MissionStatus) (s : Session)
    (r : Result (Unit {0}) × Session)
    → (elem to (valid_transitions from) ≡ true → Licence a status from to)
    → Moves from to (get_mission_row a.mission_id s.pending) s r
    → Follows a status s r
Moves-Follows a status from to s r licence (raised e h start) = Follows.raised e h start
Moves-Follows a status from to s r licence (kept h same) = Follows.kept h same
Moves-Follows a status from to s r licence (moved m found is allowed h same) =
    Follows.moved m from to (licence allowed) found is h same

module _ (g : Ambient) where
  follow-Follows :
      (a : Approval) (status : ApprovalStatus) (s : Session)
      → Follows a status s (follow g a status s)
  follow-Follows a status s =
      elim (Bool-cases
        ((status ≟ ApprovalStatus.approved) && (a.approval_type ≟ ApprovalType.execution))) [
          | inl execution ↦ rw execution (
              Moves-Follows a status MissionStatus.planned MissionStatus.approved_for_execution s _
                (λ _. to_execute (ground arith) (ground arith))
                (move_from-Moves g MissionStatus.planned MissionStatus.approved_for_execution
                  (get_mission_row a.mission_id s.pending) s))
          | inr not_execution ↦
              elim (Bool-cases
                ((status ≟ ApprovalStatus.approved) && (a.approval_type ≟ ApprovalType.merge))) [
                  | inl merge ↦
                      rw (not_execution, merge)
                        (Moves-Follows a status MissionStatus.awaiting_human_approval
                          MissionStatus.merged s _ (λ _. to_merge (ground arith) (ground arith))
                          (move_from-Moves g MissionStatus.awaiting_human_approval
                            MissionStatus.merged (get_mission_row a.mission_id s.pending) s))
                  | inr not_merge ↦ elim (Bool-cases (status ≟ ApprovalStatus.rejected)) [
                    | inl rejected ↦
                        rw (not_execution, not_merge, rejected)
                          (Moves-Follows a status MissionStatus.planned MissionStatus.blocked s _
                            (λ allowed. absurd (cc))
                            (move_from-Moves g MissionStatus.planned MissionStatus.blocked
                              (get_mission_row a.mission_id s.pending) s))
                    | inr other ↦ rw (not_execution, not_merge, other) (Follows.kept refl refl)
                  ]
                ]
        ]

-- Why the status of the mission `j` is another one after a resolution.
pub record Licensed (d : Database) (approval_id : ℕ) (status : ApprovalStatus) (j : ℕ)
    (m m' : Mission) : Type 0 where
  pub approval : Approval
  pub found : get_approval approval_id d ≡ some approval
  pub concerns : approval.mission_id ≡ j
  pub licence : Licence approval status m.status m'.status

module _ (g : Ambient) (approval_id : ℕ) (status : ApprovalStatus) (reason : Option String) where
  module _ (d : Database) (a : Approval) where
    -- The session after the approval and the event were written.
    abbrev written : Session
    written = record {
      committed = d;
      pending =
          mission_event g 1 (resolution g a.approval_type status) a.mission_id
            (("approval_id", ident a.id) ∷ ("status", text (status_value status)) ∷ [])
            (update_approval (resolved g status reason a) d);
    }

    abbrev resolve_end : Result (Unit {0}) × Session → Result Approval × Session
    resolve_end r = and_then r.0 (λ _. close g (resolved g status reason a)) r.1

    resolve_end_ok :
        (r : Result (Unit {0}) × Session) → r.0 ≡ ok tt → (resolve_end r).1.committed ≡ r.1.pending
    resolve_end_ok r h = rw h refl

    resolve_end_raise :
        (r : Result (Unit {0}) × Session) (e : Exception)
        → r.0 ≡ raise e
        → (resolve_end r).1.committed ≡ r.1.committed
    resolve_end_raise r e h = rw h refl

    -- The mission `j` after the move of the mission `x`.
    moved-Licensed :
        (x : Mission) (from to : MissionStatus) (missions : List Mission)
        → get_approval approval_id d ≡ some a
        → Licence a status from to
        → select mission_key a.mission_id d.missions ≡ some x
        → x.status ≡ from
        → missions ≡ modify mission_key x.id (write_mission (record x { status = to })) d.missions
        → (j : ℕ) (m m' : Mission) → select mission_key j d.missions ≡ some m
        → select mission_key j missions ≡ some m'
        → (m'.status ≡ m.status) ⊎ Licensed d approval_id status j m m'
    moved-Licensed x from to missions found licence held is same j m m' before now =
        let new : Mission → Mission = write_mission (record x { status = to }) in
        let law : select mission_key j missions ≡ (
            if x.id == j
            then Option.map new (select mission_key j d.missions)
            else select mission_key j d.missions) =
          ap (select mission_key j) same
          ∙ select-modify mission_key new (λ b. refl) x.id j d.missions in
        elim (Bool-cases (x.id == j)) [
          | inr other ↦
              let e : m ≡ m' =
                Option.some-injective m m' (sym before ∙ sym (rw other at law) ∙ now) in
              inl (ap (λ b. b.status) (sym e))
          | inl named ↦
              let e : new m ≡ m' =
                Option.some-injective (new m) m' (sym (rw (named, before) at law) ∙ now) in
              let x_is : x.id ≡ a.mission_id =
                key-select mission_key a.mission_id d.missions held in
              let a_is : a.mission_id ≡ j = sym x_is ∙ (==_iff _ _).0 named in
              let m_is : x ≡ m =
                Option.some-injective x m
                  (sym held ∙ ap (λ k. select mission_key k d.missions) a_is ∙ before) in
              inr (record {
                approval = a;
                found = found;
                concerns = a_is;
                licence =
                    subst (λ f. Licence a status f m'.status) (sym is ∙ ap (λ b. b.status) m_is)
                      (subst (Licence a status from) (ap (λ b. b.status) e) licence);
              })
        ]

    resolve_end-Licensed :
        (r : Result (Unit {0}) × Session)
        → get_approval approval_id d ≡ some a
        → Follows a status written r
        → (j : ℕ) (m m' : Mission) → get_mission_row j d ≡ some m
        → get_mission_row j (resolve_end r).1.committed ≡ some m'
        → (m'.status ≡ m.status) ⊎ Licensed d approval_id status j m m'
    unfolding get_mission_row update_approval append_event
    resolve_end-Licensed r found (raised e h start) j m m' before now =
        let same : m ≡ m' =
          Option.some-injective m m'
            (sym before ∙ ap (get_mission_row j) (sym (resolve_end_raise r e h ∙ start)) ∙ now) in
        inl (ap (λ b. b.status) (sym same))
    resolve_end-Licensed r found (kept h missions) j m m' before now =
        let same : m ≡ m' = Option.some-injective m m' (
          sym before
          ∙ ap (select mission_key j) (sym missions)
          ∙ ap (get_mission_row j) (sym (resolve_end_ok r h))
          ∙ now) in
        inl (ap (λ b. b.status) (sym same))
    resolve_end-Licensed r found (moved x from to licence held is h missions) j m m' before now =
        moved-Licensed x from to r.1.pending.missions found licence held is missions j m m' before
          (ap (get_mission_row j) (sym (resolve_end_ok r h)) ∙ now)

  resolve-Licensed :
      (d : Database) (read : Option Approval)
      → get_approval approval_id d ≡ read
      → (j : ℕ) (m m' : Mission) → get_mission_row j d ≡ some m
      → get_mission_row j
          (resolve g status reason read (record { committed = d; pending = d })).1.committed
        ≡ some m'
      → (m'.status ≡ m.status) ⊎ Licensed d approval_id status j m m'
  resolve-Licensed d none found j m m' before now =
      let same : m ≡ m' = Option.some-injective m m' (sym before ∙ now) in
      inl (ap (λ b. b.status) (sym same))
  resolve-Licensed d (some a) found j m m' before now =
      resolve_end-Licensed d a (follow g a status (written d a)) found
        (follow-Follows g a status (written d a)) j m m' before now

-- Whatever is resolved, a mission has the status that it had, or the approval that was resolved
-- concerns it and was APPROVED, and either it is for the execution and the mission goes from PLANNED
-- to APPROVED_FOR_EXECUTION, or it is for the merge and the mission goes from
-- AWAITING_HUMAN_APPROVAL to MERGED.
pub resolve_approval-Licensed :
    (g : Ambient) (approval_id : ℕ) (status : ApprovalStatus) (reason : Option String)
    (d : Database) (j : ℕ) (m m' : Mission)
    → get_mission_row j d ≡ some m
    → get_mission_row j (resolve_approval g approval_id status reason d).1 ≡ some m'
    → (m'.status ≡ m.status) ⊎ Licensed d approval_id status j m m'
unfolding resolve_approval
resolve_approval-Licensed g approval_id status reason d j m m' before now =
    resolve-Licensed g approval_id status reason d (get_approval approval_id d) refl j m m' before
      now

-- The rejection of any approval of a mission that is PLANNED raises, and nothing is stored: the
-- approval stays as it was.
pub reject-planned :
    (g : Ambient) (approval_id : ℕ) (reason : Option String) (d : Database) (a : Approval)
    (m : Mission)
    → get_approval approval_id d ≡ some a
    → get_mission_row a.mission_id d ≡ some m
    → m.status ≡ MissionStatus.planned
    → resolve_approval g approval_id ApprovalStatus.rejected reason d
      ≡ (raise invalid_mission_transition, d)
unfolding resolve_approval get_mission_row update_approval append_event transition
reject-planned g approval_id reason d a m found held is =
    rw (found, resolve, follow, held, move_from, is, move_to) refl
