-- ===== src/Coordinator/Lease/Ownership.antt =====
-- Only the owner of a lease renews it, and only before it expires.
use aura_automated_user_rag.Base.{
  ℕ, ◌+◌, ◌<◌, Bool, true, false, Option, none, some, ◌≡◌, ◌≢◌, ◌↔◌, inl, inr, refl, sym, ap, ◌∙◌,
  subst, arith, ◌==◌, ==_refl, ==_false, select, modify, key-select, select-modify, select-append,
  Option-cases, Bool-cases, Result, ok, ok-injective, raise, stale_ownership_error, if◌then◌else◌,
}
use mathlib.Core.Option
use aura_automated_user_rag.Domain.Events.{Ambient}
use aura_automated_user_rag.Domain.Workers.{Worker, TaskLease}
use aura_automated_user_rag.Store.{Database}
use aura_automated_user_rag.Store.Rows.{
  lease_key, get_lease, update_lease, write_lease, create_heartbeat, update_worker,
}
use aura_automated_user_rag.Coordinator.{Coordinator}
use aura_automated_user_rag.Coordinator.Lease.{
  lost, renewed, renew, renew_lease, owned, assert_ownership, touched, heartbeat_of,
  heartbeat_touched,
}
use aura_automated_user_rag.Coordinator.Claim.{Claimed, claim_next_task}
use aura_automated_user_rag.Coordinator.Claim.Safety.{claim_next_task-Rightful}

-- The worker owns the lease at the time `now`.
abbrev pub Owned : ℕ → Coordinator → TaskLease → Type 0
Owned now c lease = (lease.worker_id ≡ c.worker.id) × (now < lease.lease_expires_at)

pub lost_iff :
    (now : ℕ) (c : Coordinator) (lease : TaskLease)
    → (lost now c (some lease) ≡ false) ↔ Owned now c lease
lost_iff now c lease = ground arith

module _ (g : Ambient) (c : Coordinator) (k : ℕ) (d : Database) where
  -- Nothing happens, or the lease is extended.
  pub data Renewal (r : Result Bool × Database) : Type 0 where
    refused :
        ((lease : TaskLease) → get_lease k d ≡ some lease → ¬ Owned (g.now 0) c lease)
        → r ≡ (ok false, d)
        → Renewal r
    extended :
        (lease : TaskLease)
        → get_lease k d ≡ some lease
        → Owned (g.now 0) c lease
        → r.0 ≡ ok true
        → get_lease k r.1
          ≡ some (record lease {
            lease_expires_at = g.now 1 + c.lease_ttl_seconds;
            last_heartbeat_at = some (g.now 2);
            renewed_count = lease.renewed_count + 1;
            updated_at = g.now 3;
          })
        → ((j : ℕ) → j ≢ k → get_lease j r.1 ≡ get_lease j d)
        → r.1.tasks ≡ d.tasks
        → Renewal r

  touched_keeps :
      (found : Option Worker) (e : Database)
      → ((touched g c found e).tasks ≡ e.tasks)
        × ((touched g c found e).task_leases ≡ e.task_leases)
  unfolding update_worker
  touched_keeps none e = (refl, refl)
  touched_keeps (some w) e = (refl, refl)

  -- The database after a renewal.
  abbrev after : TaskLease → Database
  after lease =
      heartbeat_touched g c (
        create_heartbeat (heartbeat_of g c (renewed g c lease))
          (update_lease (renewed g c lease) d))

  after_keeps :
      (lease : TaskLease)
      → ((after lease).tasks ≡ d.tasks)
        × ((after lease).task_leases
            ≡ modify lease_key lease.id (write_lease (renewed g c lease)) d.task_leases)
  unfolding create_heartbeat update_lease
  after_keeps lease = touched_keeps _ _

  after_leases :
      (lease : TaskLease)
      → get_lease k d ≡ some lease
      → (get_lease k (after lease) ≡ some (renewed g c lease))
        × ((j : ℕ) → j ≢ k → get_lease j (after lease) ≡ get_lease j d)
  unfolding get_lease
  after_leases lease found =
      let id_is : lease.id ≡ k = key-select lease_key k d.task_leases found in
      let same : (after lease).task_leases
          ≡ modify lease_key k (write_lease (renewed g c lease)) d.task_leases =
        subst
          (λ i.
            (after lease).task_leases
            ≡ modify lease_key i (write_lease (renewed g c lease)) d.task_leases)
          id_is (after_keeps lease).1 in
      let law : (j : ℕ)
          → select lease_key j (after lease).task_leases ≡ (
              if k == j
              then Option.map (write_lease (renewed g c lease)) (select lease_key j d.task_leases)
              else select lease_key j d.task_leases) =
        λ j. rw same (
          select-modify lease_key (write_lease (renewed g c lease)) (λ a. refl) k j
            d.task_leases) in
      (
        law k ∙ rw (==_refl k, found) refl,
        λ j differ. law j ∙ rw (==_false k j (λ e. differ (sym e))) refl,
      )

  -- `renew_lease` on every branch: a lease that is missing, another worker's or expired is refused
  -- and the database stays as it is. Any other is extended to the time to live from now, and no other
  -- lease and no task changes.
  pub renew_lease-Renewal : Renewal (renew_lease g c k d)
  unfolding renew_lease
  renew_lease-Renewal = elim (Option-cases (get_lease k d)) [
    | inl gone ↦
        refused (λ lease found. let clash : none ≡ some lease = sym gone ∙ found in absurd (cc))
          (rw (gone, renew) refl)
    | inr (lease, found) ↦ elim (Bool-cases (lost (g.now 0) c (some lease))) [
      | inl missed ↦
          refused
            (λ other held own.
              let same : lease ≡ other = Option.some-injective lease other (sym found ∙ held) in
              let kept : lost (g.now 0) c (some lease) ≡ false =
                (lost_iff (g.now 0) c lease).1 (subst (Owned (g.now 0) c) (sym same) own) in
              absurd (cc))
            (rw (found, renew, missed) refl)
      | inr held ↦
          rw (found, renew, held)
            (extended lease found ((lost_iff (g.now 0) c lease).0 held) refl
              (after_leases lease found).0 (after_leases lease found).1 (after_keeps lease).0)
    ]
  ]

-- `_assert_ownership` returns a lease, with the database as it was, exactly when that lease is stored
-- under the identifier and the worker owns it at that time.
pub assert_ownership_lem :
    (g : Ambient) (c : Coordinator) (k : ℕ) (d : Database) (lease : TaskLease)
    → (assert_ownership g c k d ≡ (ok lease, d))
      ↔ ((get_lease k d ≡ some lease) × Owned (g.now 0) c lease)
unfolding assert_ownership
assert_ownership_lem g c k d lease = elim (Option-cases (get_lease k d)) [
  | inl gone ↦ (
    λ h.
        let clash : raise stale_ownership_error ≡ ok lease =
          ap (λ r. r.0) (rw (gone, owned) at h) in
        absurd (cc),
    λ (held, _). let clash : none ≡ some lease = sym gone ∙ held in absurd (cc),
  )
  | inr (found, e) ↦ elim (Bool-cases (lost (g.now 0) c (some found))) [
    | inl missed ↦ (
      λ h.
          let clash : raise stale_ownership_error ≡ ok lease =
            ap (λ r. r.0) (rw (e, owned, missed) at h) in
          absurd (cc),
      λ (held, own).
          let same : found ≡ lease = Option.some-injective found lease (sym e ∙ held) in
          let kept : lost (g.now 0) c (some found) ≡ false =
            (lost_iff (g.now 0) c found).1 (subst (Owned (g.now 0) c) (sym same) own) in
          absurd (cc),
    )
    | inr kept ↦ (
      λ h.
          let same : found ≡ lease = ok-injective (ap (λ r. r.0) (rw (e, owned, kept) at h)) in
          (e ∙ ap some same, subst (Owned (g.now 0) c) same ((lost_iff (g.now 0) c found).0 kept)),
      λ (held, own).
          let same : found ≡ lease = Option.some-injective found lease (sym e ∙ held) in
          rw (e, owned, kept) (ap (λ x. (ok x, d)) same),
    )
  ]
]

-- A lease that was just claimed, under an identifier that no lease had, is renewed by the worker
-- at any time before it expires.
pub claim-renew :
    (g g' : Ambient) (c : Coordinator) (d d' : Database) (cl : Claimed)
    → claim_next_task g c d ≡ (ok (some cl), d')
    → get_lease cl.lease.id d ≡ none
    → g'.now 0 < cl.lease.claimed_at + c.lease_ttl_seconds
    → (renew_lease g' c cl.lease.id d').0 ≡ ok true
unfolding get_lease
claim-renew g g' c d d' cl claimed unused early =
    let made = (claim_next_task-Rightful g c d d' cl claimed).1 in
    let stored : get_lease cl.lease.id d' ≡ some cl.lease = rw made.leased (
      select-append lease_key cl.lease.id d.task_leases cl.lease unused
      ∙ rw (==_refl cl.lease.id) refl) in
    elim (renew_lease-Renewal g' c cl.lease.id d') [
      | refused unowned _ ↦
          absurd (unowned cl.lease stored (made.lease_owner, rw made.lease_ends early))
      | extended _ _ _ e _ _ _ ↦ e
    ]
