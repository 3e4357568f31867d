-- ===== src/Retrieval/Budget.antt =====
-- The token budget of a bundle.
use aura_automated_user_rag.Base.{
  ℕ, String, ◌+◌, ◌-◌, ◌≤◌, true, none, some, List, [], ◌∷◌, ◌≡◌, inl, inr, refl, string_eq, arith,
  leb, ltb, leb→le, Bool-cases,
}
use aura_automated_user_rag.Domain.Events.{Ambient}
use aura_automated_user_rag.Retrieval.{RetrievalQuery, RetrievedContext, Scores, Forge, Texts}
use aura_automated_user_rag.Retrieval.Assembly.{
  total_of, last_fit, greedy, apply_token_budget, Cache, cached, cache_key, assemble_bundle,
  fresh_contexts, retrieve_context,
}

module _ {S : Type 0} (scores : Scores S) where
  last_fit-bound :
      (remaining : ℕ) (ctx : RetrievedContext S)
      → total_of (last_fit scores remaining ctx) ≤ remaining
  last_fit-bound remaining ctx = elim (Bool-cases (ltb 100 remaining)) [
    | inl roomy ↦ rw roomy (omega arith)
    | inr full ↦ rw full (omega arith)
  ]

  greedy-bound :
      (budget total : ℕ) (contexts : List (RetrievedContext S))
      → total ≤ budget
      → total + total_of (greedy scores budget total contexts) ≤ budget
  unfolding greedy
  greedy-bound budget total [] h = omega (arith, h)
  greedy-bound budget total (ctx ∷ contexts) h =
      elim (Bool-cases (leb (total + ctx.tokens) budget)) [
        | inl fits ↦
            rw fits
              (omega (arith, greedy-bound budget (total + ctx.tokens) contexts (leb→le _ _ fits)))
        | inr over ↦ rw over (omega (arith, h, last_fit-bound (budget - total) ctx))
      ]

  -- Whatever contexts there are, those that `_apply_token_budget` keeps are within the budget.
  pub apply_token_budget-bound :
      (contexts : List (RetrievedContext S)) (budget : ℕ)
      → total_of (apply_token_budget scores contexts budget) ≤ budget
  unfolding apply_token_budget
  apply_token_budget-bound contexts budget = elim (Bool-cases (leb (total_of contexts) budget)) [
    | inl fits ↦ rw fits (leb→le _ _ fits)
    | inr over ↦ rw over (omega (arith, greedy-bound budget 0 contexts (omega arith)))
  ]

  module _ (forge : Forge S) (texts : Texts) (most : ℕ) (g : Ambient) where
    -- A bundle that does not come from the cache is within the token budget of its query, and the
    -- cache then answers the query with the contexts of the bundle.
    pub retrieve_context-bound :
        (query : RetrievalQuery) (cache : Cache scores)
        → cached scores (cache_key scores texts query) cache ≡ none
        → ((retrieve_context scores forge texts most g query cache).0.total_tokens
            ≤ query.token_budget)
          × (cached scores
                (cache_key scores texts query)
                (retrieve_context scores forge texts most g query cache).1
              ≡ some (retrieve_context scores forge texts most g query cache).0.contexts)
    unfolding retrieve_context assemble_bundle fresh_contexts
    retrieve_context-bound query cache missing = rw missing (
      apply_token_budget-bound _ query.token_budget,
      rw ((string_eq.beq_iff (cache_key scores texts query) (cache_key scores texts query)).1 refl)
          refl,
    )

    -- A query that differs only in its token budget, its changed files and its acceptance criteria,
    -- after one that the cache did not answer, gets the contexts of the first one if its two readings
    -- of the clock are less than 300 seconds apart, so its bundle is as large, whatever its own token
    -- budget is; and the cache stays as it is.
    pub retrieve_context-again :
        (g' : Ambient) (query : RetrievalQuery) (budget : ℕ) (files criteria : List String)
        (cache : Cache scores)
        → cached scores (cache_key scores texts query) cache ≡ none
        → ltb (g'.now 1 - g'.now 0) 300 ≡ true
        → let first = retrieve_context scores forge texts most g query cache in
          let again =
            retrieve_context scores forge texts most g'
              (record query {
                token_budget = budget;
                changed_files = files;
                acceptance_criteria = criteria;
              })
              first.1 in
          (again.0.contexts ≡ first.0.contexts)
          × (again.0.total_tokens ≡ first.0.total_tokens)
          × (again.0.token_budget ≡ budget)
          × (again.1 ≡ first.1)
    unfolding retrieve_context assemble_bundle cache_key
    retrieve_context-again g' query budget files criteria cache missing soon =
        let key = cache_key scores texts query in
        rw (missing, (string_eq.beq_iff key key).1 refl, soon) (refl, refl, refl, refl)
