-- ===== src/Planner/Supersedes.antt =====
-- A new plan is the only current one of its mission.
use aura_automated_user_rag.Base.{
  ℕ, true, false, Option, none, some, List, [], ◌∷◌, ◌≡◌, ◌⊎◌, inl, inr, refl, sym, ap, ◌∙◌, subst,
  ◌==◌, ==_iff, ◌≟◌, ltb, filter, In, here, there, In-cons, In-append, In-filter, not-In-nil,
  In-sorted_back, modify, Bool-cases, Result, ok, raise, ok-injective,
}
use aura_automated_user_rag.Domain.Events.{Ambient}
use aura_automated_user_rag.Domain.Missions.{Mission, MissionStatus, mission_status_eq}
use aura_automated_user_rag.Domain.Plans.{PlanStatus, plan_status_eq, EngineeringPlan}
use aura_automated_user_rag.Store.{Database}
use aura_automated_user_rag.Store.Work.{with_uow, reads, ◌>>=◌}
use aura_automated_user_rag.Store.Rows.{get_mission_row}
use aura_automated_user_rag.Store.PlanRows.{plan_key, write_plan, update_plan, plans_of_mission}
use aura_automated_user_rag.Planner.{
  Provider, is_current, supersede_plan, supersede, begin_planning, with_contexts, plan_mission,
  generate_plan,
}
use aura_automated_user_rag.Planner.Acyclic.{Planned, DeepEnough, AllPlanned, with_contexts-Planned}

-- Where a row comes from after some plans were superseded: it is no longer current, or it is as it
-- was and none of those plans had its identifier and was current.
pub data Origin (ps rows : List EngineeringPlan) (row : EngineeringPlan) : Type 0 where
  retired : is_current row ≡ false → Origin ps rows row
  kept :
      In row rows
      → ((p : EngineeringPlan) → In p ps → is_current p ≡ true → p.id ≡ row.id → ⊥)
      → Origin ps rows row

In-modify :
    (k : ℕ) (f : EngineeringPlan → EngineeringPlan) (rows : List EngineeringPlan)
    {row : EngineeringPlan}
    → In row (modify plan_key k f rows)
    → ((old : EngineeringPlan) × (row ≡ f old)) ⊎ (In row rows × ((row.id == k) ≡ false))
unfolding modify
In-modify k f [] m = elim m [ ]
In-modify k f (x ∷ rows) {row} m = elim (Bool-cases (x.id == k)) [
  | inl same ↦
      let m' : In row (f x ∷ modify plan_key k f rows) = rw same at m in
      elim (In-cons m') [
        | inl e ↦ inl (x, e)
        | inr rest ↦ elim (In-modify k f rows rest) [
          | inl changed ↦ inl changed
          | inr (stays, other) ↦ inr (there stays, other)
        ]
      ]
  | inr differs_here ↦
      let m' : In row (x ∷ modify plan_key k f rows) = rw differs_here at m in
      elim (In-cons m') [
        | inl e ↦
            inr (here e, subst (λ (r : EngineeringPlan). (r.id == k) ≡ false) (sym e) differs_here)
        | inr rest ↦ elim (In-modify k f rows rest) [
          | inl changed ↦ inl changed
          | inr (stays, other) ↦ inr (there stays, other)
        ]
      ]
]

supersede_plan-Origin :
    (p : EngineeringPlan) (d : Database) {row : EngineeringPlan}
    → In row (supersede_plan p d).plans
    → Origin (p ∷ []) d.plans row
unfolding update_plan
supersede_plan-Origin p d {row} m = elim (Bool-cases (is_current p)) [
  | inr old ↦ kept (rw old at m) (λ q mq current same. elim (In-cons mq) [
    | inl e ↦
        let bad : true ≡ false = sym current ∙ ap (λ (x : EngineeringPlan). is_current x) e ∙ old in
        cc
    | inr none_left ↦ not-In-nil none_left
  ])
  | inl current ↦
      let m' : In row (
          modify plan_key p.id (write_plan (record p { status = PlanStatus.superseded })) d.plans) =
        rw current at m in
      elim (In-modify p.id (write_plan (record p { status = PlanStatus.superseded })) d.plans m') [
        | inl (before, e) ↦ retired (ap (λ (x : EngineeringPlan). is_current x) e)
        | inr (stays, other) ↦ kept stays (λ q mq now same. elim (In-cons mq) [
          | inl e ↦
              let here_too : (row.id == p.id) ≡ true =
                (==_iff row.id p.id).1 (sym same ∙ ap (λ (x : EngineeringPlan). x.id) e) in
              let bad : true ≡ false = sym here_too ∙ other in cc
          | inr none_left ↦ not-In-nil none_left
        ])
      ]
]

supersede-Origin :
    (ps : List EngineeringPlan) (d : Database) {row : EngineeringPlan}
    → In row (supersede ps d).plans
    → Origin ps d.plans row
unfolding supersede
supersede-Origin [] d m = kept m (λ p mp current same. not-In-nil mp)
supersede-Origin (p ∷ ps) d m = elim (supersede-Origin ps (supersede_plan p d) m) [
  | retired over ↦ retired over
  | kept stays others ↦ elim (supersede_plan-Origin p d stays) [
    | retired over ↦ retired over
    | kept at_first not_p ↦ kept at_first (λ q mq current same. elim (In-cons mq) [
      | inl e ↦ not_p q (here e) current same
      | inr later ↦ others q later current same
    ])
  ]
]

-- After the plans of a mission were superseded, none of them is current.
superseded-all :
    (mission_id : ℕ) (d : Database) (row : EngineeringPlan)
    → In row (supersede (plans_of_mission mission_id d) d).plans
    → row.mission_id ≡ mission_id
    → is_current row ≡ false
unfolding plans_of_mission
superseded-all mission_id d row m mine =
    elim (supersede-Origin (plans_of_mission mission_id d) d m) [
      | retired over ↦ over
      | kept stays others ↦ elim (Bool-cases (is_current row)) [
        | inr over ↦ over
        | inl current ↦
            let own : (row.mission_id == mission_id) ≡ true =
              (==_iff row.mission_id mission_id).1 mine in
            absurd (
              others row
                (In-sorted_back (λ a b. ltb b.created_at a.created_at)
                  (filter (λ p. p.mission_id == mission_id) d.plans)
                  (In-filter (λ p. p.mission_id == mission_id) d.plans stays own))
                current refl)
      ]
    ]

module _ (depth : ℕ) (gs : ℕ → Ambient) (llm : Provider) (mission_id : ℕ)
    (enough : DeepEnough depth gs llm mission_id) where
  abbrev pub begun : Database → Result Mission × Database
  begun d = with_uow (reads (get_mission_row mission_id) >>= begin_planning mission_id) d

  begun-superseded :
      (found : Option Mission) (d : Database) (mission : Mission)
      → (with_uow (begin_planning mission_id found) d).0 ≡ ok mission
      → (with_uow (begin_planning mission_id found) d).1
        ≡ supersede (plans_of_mission mission_id d) d
  begun-superseded none d mission h = absurd (cc)
  begun-superseded (some m) d mission h = elim (Bool-cases (m.status ≟ MissionStatus.planning)) [
    | inl planning ↦ rw planning refl
    | inr other ↦ let bad : raise _ ≡ ok mission = rw other at h in absurd (cc)
  ]

  -- The plan is the only plan of its mission that is GENERATED or VALIDATED.
  abbrev pub OnlyCurrent : EngineeringPlan → Database → Type 0
  OnlyCurrent plan after =
      (row : EngineeringPlan)
      → In row after.plans
      → row.mission_id ≡ mission_id
      → is_current row ≡ true
      → row ≡ plan

  only-current :
      (plan : EngineeringPlan) (d e after : Database)
      → e ≡ supersede (plans_of_mission mission_id d) d
      → Planned depth gs llm mission_id plan e after
      → OnlyCurrent plan after
  only-current plan d e after same planned row m mine current =
      elim (In-append e.plans (plan ∷ []) (subst (λ rows. In row rows) planned.is_stored m)) [
        | inr last ↦ elim (In-cons last) [
          | inl this ↦ this
          | inr none_left ↦ absurd (not-In-nil none_left)
        ]
        | inl old ↦
            let over =
              superseded-all mission_id d row (subst (λ (x : Database). In row x.plans) same old)
                mine in
            let bad : true ≡ false = sym current ∙ over in absurd (cc)
      ]

  plan_mission-Planned :
      (r : Result Mission) (d e : Database) (plan : EngineeringPlan)
      → ((mission : Mission) → r ≡ ok mission → e ≡ supersede (plans_of_mission mission_id d) d)
      → (plan_mission depth gs llm mission_id (r, e)).0 ≡ ok plan
      → Planned depth gs llm mission_id plan e (plan_mission depth gs llm mission_id (r, e)).1
        × OnlyCurrent plan (plan_mission depth gs llm mission_id (r, e)).1
  plan_mission-Planned (raise x) d e plan same h = absurd (cc)
  plan_mission-Planned (ok mission) d e plan same h =
      let after = (with_contexts depth gs llm mission_id mission (llm.contexts mission) e).1 in
      let all =
        with_contexts-Planned depth gs llm mission_id enough mission (llm.contexts mission) e in
      let planned =
        returned-Planned (with_contexts depth gs llm mission_id mission (llm.contexts mission) e).0
          e after plan all h in
      (planned, only-current plan d e after (same mission refl) planned)
    where
      returned-Planned :
          (r : Result EngineeringPlan) (e after : Database) (plan : EngineeringPlan)
          → AllPlanned depth gs llm mission_id e (r, after)
          → r ≡ ok plan
          → Planned depth gs llm mission_id plan e after
      returned-Planned (ok p) e after plan all h =
          subst (λ q. Planned depth gs llm mission_id q e after) (ok-injective h) all
      returned-Planned (raise x) e after plan all h = absurd (cc)

  -- If the recursion limit is enough for the dependencies of every answer, then a plan that
  -- `generate_plan` returns is VALIDATED and stored after the plans that there were, the dependencies
  -- of its tasks are all resolved and have no cycle, and it is the only plan of its mission that is
  -- GENERATED or VALIDATED.
  pub generate_plan-Planned :
      (d : Database) (plan : EngineeringPlan)
      → (generate_plan depth gs llm mission_id d).0 ≡ ok plan
      → Planned depth gs llm mission_id plan (begun d).1 (generate_plan depth gs llm mission_id d).1
        × OnlyCurrent plan (generate_plan depth gs llm mission_id d).1
  unfolding generate_plan
  generate_plan-Planned d plan h =
      plan_mission-Planned (begun d).0 d (begun d).1 plan
        (λ mission e. begun-superseded (get_mission_row mission_id d) d mission e) h
