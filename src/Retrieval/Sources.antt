-- ===== src/Retrieval/Sources.antt =====
-- The sources of the contexts that results are processed into.
use aura_automated_user_rag.Base.{
  ℕ, ◌+◌, Bool, true, false, String, ◌≟◌, string_eq, elem, List, [], ◌∷◌, ◌≡◌, inl, inr, refl, sym,
  ap, ◌∙◌, subst, arith, ◌||◌, ◌&&◌, not, Bool-cases, sorted, insert_sorted, if◌then◌else◌,
}
use aura_automated_user_rag.Retrieval.{ForgeSearchResult, RetrievedContext, Scores}
use aura_automated_user_rag.Retrieval.Assembly.{passed_over, collect, process_results}

module _ {S : Type 0} where
  -- How often a source occurs.
  abbrev pub times : String → List (RetrievedContext S) → ℕ
  times p [] = 0
  times p (c ∷ cs) = (if p ≟ c.source then 1 else 0) + times p cs

  -- Some result is about the path and is not below the threshold.
  abbrev pub is_offered : Scores S → String → List (ForgeSearchResult S) → Bool
  is_offered scores p [] = false
  is_offered scores p (result ∷ results) =
      (not (scores.is_below_threshold result.relevance_score) && (p ≟ result.file.path))
      || is_offered scores p results

  times-insert_sorted :
      (lt : RetrievedContext S → RetrievedContext S → Bool) (p : String) (c : RetrievedContext S)
      (cs : List (RetrievedContext S))
      → times p (insert_sorted lt c cs) ≡ times p (c ∷ cs)
  times-insert_sorted lt p c [] = refl
  times-insert_sorted lt p c (d ∷ ds) = elim (Bool-cases (lt d c)) [
    | inl before ↦ rw before (omega (arith, times-insert_sorted lt p c ds))
    | inr found ↦ rw found refl
  ]

  times-sorted :
      (lt : RetrievedContext S → RetrievedContext S → Bool) (p : String)
      (cs : List (RetrievedContext S))
      → times p (sorted lt cs) ≡ times p cs
  unfolding sorted
  times-sorted lt p [] = refl
  times-sorted lt p (c ∷ cs) =
      times-insert_sorted lt p c (sorted lt cs)
      ∙ ap (λ n. (if p ≟ c.source then 1 else 0) + n) (times-sorted lt p cs)

  module _ (scores : Scores S) where
    -- The contexts that are collected after the sources that were seen.
    abbrev pub expected : String → List String → List (ForgeSearchResult S) → ℕ
    expected p seen results =
        if elem p seen then 0 else if is_offered scores p results then 1 else 0

    times-collect :
        (p : String) (seen : List String) (results : List (ForgeSearchResult S))
        → times p (collect scores seen results) ≡ expected p seen results
    unfolding collect passed_over
    times-collect p seen [] = elim (Bool-cases (elem p seen)) [
      | inl old ↦ rw old refl
      | inr new ↦ rw new refl
    ]
    times-collect p seen (result ∷ results) =
        let path = result.file.path in
        elim (Bool-cases (scores.is_below_threshold result.relevance_score)) [
          | inl below ↦ rw below (times-collect p seen results)
          | inr relevant ↦ elim (Bool-cases (elem path seen)) [
            | inl old ↦ elim (Bool-cases (p ≟ path)) [
              | inl same ↦
                  let e : p ≡ path = (string_eq.beq_iff p path).0 same in
                  let old_p : elem p seen ≡ true = subst (λ q. elem q seen ≡ true) (sym e) old in
                  let ih = times-collect p seen results in
                  rw (relevant, old) (rw old_p (rw old_p at ih))
              | inr other ↦ rw (relevant, old, other) (times-collect p seen results)
            ]
            | inr new ↦ elim (Bool-cases (p ≟ path)) [
              | inl same ↦
                  let e : p ≡ path = (string_eq.beq_iff p path).0 same in
                  let new_p : elem p seen ≡ false = subst (λ q. elem q seen ≡ false) (sym e) new in
                  let ih = times-collect p (path ∷ seen) results in
                  rw (relevant, new, same, new_p) (omega (arith, rw same at ih))
              | inr other ↦
                  let ih = times-collect p (path ∷ seen) results in
                  rw (relevant, new, other) (omega (arith, rw other at ih))
            ]
          ]
        ]

    -- Among the contexts that results are processed into, a path is the source of exactly one if
    -- some result about it is not below the threshold, and of none otherwise.
    pub times-process_results :
        (p : String) (results : List (ForgeSearchResult S))
        → times p (process_results scores results) ≡ (if is_offered scores p results then 1 else 0)
    unfolding process_results
    times-process_results p results =
        times-sorted _ p (collect scores [] results) ∙ times-collect p [] results
