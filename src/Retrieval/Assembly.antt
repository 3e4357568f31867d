-- ===== src/Retrieval/Assembly.antt =====
-- From results to a bundle: `_process_results`, `_apply_token_budget`, `_assemble_bundle`, and
-- `retrieve_context` with its cache.
use aura_automated_user_rag.Base.{
  ℕ, ◌+◌, ◌-◌, ◌*◌, Bool, true, String, ◌≟◌, string_eq, Option, none, some, List, [], ◌∷◌, ◌||◌,
  elem, take, leb, ltb, sorted, prefix, join, if◌then◌else◌,
}
use Prim.Native.String.{◌++◌ as append}
use aura_automated_user_rag.Domain.Events.{
  Ambient, put, text, count, flag, null, Value, text_or_null,
}
use aura_automated_user_rag.Retrieval.{
  ForgeSearchResult, RetrievalQuery, RetrievedContext, ContextBundle, count_tokens, Scores, Forge,
  Texts,
}
use aura_automated_user_rag.Retrieval.Search.{all_results}

module _ {S : Type 0} where
  -- `sum(c.tokens for c in contexts)`
  abbrev pub total_of : List (RetrievedContext S) → ℕ
  total_of [] = 0
  total_of (c ∷ cs) = c.tokens + total_of cs

  abbrev pub joined_or : ForgeSearchResult S → List String → String
  joined_or result [] = prefix 5000 result.file.content
  joined_or result (r ∷ rs) = join "\n" (take 5 (r ∷ rs))

  -- The content by the type of the match.
  abbrev pub content_of : ForgeSearchResult S → String
  content_of result =
      if result.match_type ≟ "git_history"
      then append "Git history for " (append result.file.path (append ":\n" result.file.content))
      else joined_or result result.references

  abbrev pub context_of : ForgeSearchResult S → RetrievedContext S
  context_of result = record {
    content = content_of result;
    source = result.file.path;
    source_type = result.match_type;
    relevance_score = result.relevance_score;
    tokens = count_tokens (content_of result);
    metadata =
        ("match_type", text result.match_type)
        ∷ ("file_language", text result.file.language)
        ∷ ("file_size", count result.file.size_bytes)
        ∷ [];
    provenance =
        ("forge_result", flag true)
        ∷ ("match_type", text result.match_type)
        ∷ ("sha256", text result.file.sha256)
        ∷ [];
  }

  module _ (scores : Scores S) where
    -- The test of the loop, with the sources that were seen.
    unfoldable pub passed_over : List String → ForgeSearchResult S → Bool
    passed_over seen result =
        scores.is_below_threshold result.relevance_score || elem result.file.path seen

    -- The contexts in the order of the results.
    unfoldable pub collect : List String → List (ForgeSearchResult S) → List (RetrievedContext S)
    collect seen [] = []
    collect seen (result ∷ results) =
        let rest =
          collect (if passed_over seen result then seen else result.file.path ∷ seen) results in
        if passed_over seen result then rest else context_of result ∷ rest

    -- `_process_results`: the sort is stable and the highest relevance comes first.
    unfoldable pub process_results : List (ForgeSearchResult S) → List (RetrievedContext S)
    process_results results =
        sorted (λ a b. scores.less b.relevance_score a.relevance_score) (collect [] results)

    abbrev pub truncated : ℕ → RetrievedContext S → RetrievedContext S
    truncated remaining ctx = record ctx {
      content = prefix (remaining * 4) ctx.content;
      relevance_score = scores.reduce ctx.relevance_score;
      tokens = remaining;
      metadata = put "truncated" (flag true) ctx.metadata;
    }

    abbrev pub last_fit : ℕ → RetrievedContext S → List (RetrievedContext S)
    last_fit remaining ctx = if ltb 100 remaining then truncated remaining ctx ∷ [] else []

    unfoldable pub greedy : ℕ → ℕ → List (RetrievedContext S) → List (RetrievedContext S)
    greedy budget total_tokens [] = []
    greedy budget total_tokens (ctx ∷ contexts) =
        let rest = greedy budget (total_tokens + ctx.tokens) contexts in
        if leb (total_tokens + ctx.tokens) budget
        then ctx ∷ rest
        else last_fit (budget - total_tokens) ctx

    -- `_apply_token_budget`
    unfoldable pub apply_token_budget : List (RetrievedContext S) → ℕ → List (RetrievedContext S)
    apply_token_budget contexts budget =
        if leb (total_of contexts) budget then contexts else greedy budget 0 contexts

    -- The cache of the service, by key.
    abbrev pub Cache : Type 0
    Cache = List (String × List (RetrievedContext S))

    abbrev pub cached : String → Cache → Option (List (RetrievedContext S))
    cached key [] = none
    cached key ((k, contexts) ∷ rest) = if k ≟ key then some contexts else cached key rest

    abbrev pub agent_text : Texts → Option ℕ → Value
    agent_text texts none = null
    agent_text texts (some agent_id) = text (texts.str_id agent_id)

    -- `_assemble_bundle`
    unfoldable pub assemble_bundle :
        Texts → Ambient → RetrievalQuery → List (RetrievedContext S) → ContextBundle S
    assemble_bundle texts g query contexts = record {
      mission_id = query.mission_id;
      task_id = query.task_id;
      query = query.query_text;
      contexts = contexts;
      total_tokens = total_of contexts;
      token_budget = query.token_budget;
      retrieved_at = g.now 2;
      retrieval_strategies_used = query.retrieval_strategies;
      metadata =
          ("task_type", text_or_null query.task_type)
          ∷ ("agent_id", agent_text texts query.agent_id)
          ∷ ("retrieval_time_ms", count ((g.now 3 - g.now 0) * 1000))
          ∷ [];
    }

    abbrev pub id_or_empty : Texts → Option ℕ → String
    id_or_empty texts none = ""
    id_or_empty texts (some id) = texts.str_id id

    -- `_cache_key`
    unfoldable pub cache_key : Texts → RetrievalQuery → String
    cache_key texts query = prefix 32 (
        texts.digest (
          join "|" (
            texts.str_id query.mission_id
            ∷ id_or_empty texts query.task_id
            ∷ prefix 100 query.query_text
            ∷ join "," (texts.sort_texts query.retrieval_strategies)
            ∷ [])))

    module _ (forge : Forge S) (texts : Texts) (most : ℕ) (g : Ambient) where
      -- What is retrieved when the cache does not answer.
      unfoldable pub fresh_contexts : RetrievalQuery → List (RetrievedContext S)
      fresh_contexts query =
          apply_token_budget (process_results (all_results scores forge texts most query))
            query.token_budget

      abbrev pub retrieve : RetrievalQuery → Cache → ContextBundle S × Cache
      retrieve query cache = (
        assemble_bundle texts g query (fresh_contexts query),
        (cache_key texts query, fresh_contexts query) ∷ cache,
      )

      abbrev pub answer :
          RetrievalQuery → Cache → Option (List (RetrievedContext S)) → ContextBundle S × Cache
      answer query cache none = retrieve query cache
      answer query cache (some contexts) =
          if ltb (g.now 1 - g.now 0) 300
          then (assemble_bundle texts g query contexts, cache)
          else retrieve query cache

      -- `retrieve_context`
      unfoldable pub retrieve_context : RetrievalQuery → Cache → ContextBundle S × Cache
      retrieve_context query cache = answer query cache (cached (cache_key texts query) cache)
