-- ===== src/Retrieval/Samples.antt =====
-- A forge with one file, whose relevance is a number out of ten.
use aura_automated_user_rag.Base.{
  ℕ, ◌*◌, ◌/◌, ◌≤◌, ltb, true, String, some, List, [], ◌∷◌, ◌≡◌, refl, ok,
}
use aura_automated_user_rag.Domain.Samples.{ambient}
use aura_automated_user_rag.Retrieval.{
  ForgeFile, ForgeSearchResult, RetrievalQuery, Scores, Forge, Texts,
}
use aura_automated_user_rag.Retrieval.Assembly.{
  total_of, apply_token_budget, process_results, cached, cache_key, retrieve_context,
}
use aura_automated_user_rag.Retrieval.Builders.{coder_query}
use aura_automated_user_rag.Retrieval.Budget.{
  apply_token_budget-bound, retrieve_context-bound, retrieve_context-again,
}
use aura_automated_user_rag.Retrieval.Sources.{times, times-process_results}

abbrev scores : Scores ℕ
scores = record {
  is_below_threshold = λ s. ltb s 3;
  less = ltb;
  whole = 10;
  of_history = 8;
  reduce = λ s. s * 8 / 10;
}

abbrev file : String → ForgeFile
file path = record {
  path = path;
  content = "def run(): pass";
  language = "python";
  size_bytes = 15;
  sha256 = "";
}

abbrev result : String → ℕ → ForgeSearchResult ℕ
result path score = record {
  file = file path;
  references = [];
  relevance_score = score;
  match_type = "lexical";
}

abbrev results : List (ForgeSearchResult ℕ)
results = result "a.py" 2 ∷ result "b.py" 5 ∷ result "b.py" 7 ∷ result "c.py" 9 ∷ []

abbrev forge : Forge ℕ
forge = record {
  search_semantic = λ _ _ _ _. ok [];
  search_lexical = λ _ _ _ _. ok results;
  search_symbols = λ _ _ _. ok [];
  get_file_content = λ _ path. ok (some (file path));
  get_dependencies = λ _ _. ok [];
  get_git_history = λ _ _ _. ok [];
}

abbrev texts : Texts
texts = record {
  extract_symbols = λ _. [];
  mentions = λ _ _. true;
  digest = λ s. s;
  sort_texts = λ l. l;
  str_id = λ _. "id";
}

abbrev query : RetrievalQuery
query = coder_query 1 2 "run it" [] ("c.py" ∷ [])

abbrev smaller : RetrievalQuery
smaller = record query {
  token_budget = 1;
  changed_files = "d.py" ∷ [];
  acceptance_criteria = "c" ∷ [];
}

times-process_results_example : times "b.py" (process_results scores results) ≡ 1
times-process_results_example = times-process_results scores "b.py" results

apply_token_budget-bound_example :
    total_of (apply_token_budget scores (process_results scores results) 5) ≤ 5
apply_token_budget-bound_example =
    apply_token_budget-bound scores (process_results scores results) 5

retrieve_context-bound_example :
    ((retrieve_context scores forge texts 10 ambient query []).0.total_tokens ≤ 8000)
    × (cached scores
          (cache_key scores texts query)
          (retrieve_context scores forge texts 10 ambient query []).1
        ≡ some (retrieve_context scores forge texts 10 ambient query []).0.contexts)
unfolding coder_query
retrieve_context-bound_example = retrieve_context-bound scores forge texts 10 ambient query [] refl

retrieve_context-again_example :
    let first = retrieve_context scores forge texts 10 ambient query [] in
    let again = retrieve_context scores forge texts 10 ambient smaller first.1 in
    (again.0.contexts ≡ first.0.contexts)
    × (again.0.total_tokens ≡ first.0.total_tokens)
    × (again.0.token_budget ≡ 1)
    × (again.1 ≡ first.1)
retrieve_context-again_example =
    retrieve_context-again scores forge texts 10 ambient ambient query 1 ("d.py" ∷ []) ("c" ∷ []) []
      refl refl
