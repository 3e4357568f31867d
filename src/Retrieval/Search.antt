-- ===== src/Retrieval/Search.antt =====
-- The searches. One that raises gives nothing, or what it found before.
use aura_automated_user_rag.Base.{
  ℕ, String, string_eq, Option, none, some, List, [], ◌∷◌, ◌++◌, map, elem, take, filter, Result,
  ok, raise, get_or, if◌then◌else◌, size,
}
use aura_automated_user_rag.Retrieval.{
  ForgeFile, ForgeSearchResult, RetrievalQuery, Scores, Forge, Texts,
}

module _ {S : Type 0} (scores : Scores S) (forge : Forge S) (texts : Texts) (most : ℕ)
    (query : RetrievalQuery) where
  -- `_semantic_search` and `_lexical_search`
  unfoldable pub semantic_search : List (ForgeSearchResult S)
  semantic_search =
      get_or (forge.search_semantic query.query_text query.mission_id most query.metadata_filters)
        []

  unfoldable pub lexical_search : List (ForgeSearchResult S)
  lexical_search =
      get_or (forge.search_lexical query.query_text query.mission_id most query.metadata_filters) []

  -- A list without the repetitions of a text, as a set of them is walked.
  abbrev pub distinct : List String → List String → List String
  distinct seen [] = []
  distinct seen (t ∷ ts) =
      let rest = distinct (t ∷ seen) ts in if elem t seen then distinct seen ts else t ∷ rest

  abbrev pub symbols_of : List String → List String
  symbols_of [] = []
  symbols_of (t ∷ ts) = texts.extract_symbols t ++ symbols_of ts

  abbrev pub search_each : List String → List (ForgeSearchResult S)
  search_each [] = []
  search_each (symbol ∷ symbols) =
      get_or (forge.search_symbols symbol query.mission_id 5) [] ++ search_each symbols

  -- `_symbol_search`
  unfoldable pub symbol_search : List (ForgeSearchResult S)
  symbol_search =
      take most
        (search_each (distinct [] (symbols_of (query.query_text ∷ query.acceptance_criteria))))

  abbrev pub path_result : Result (Option ForgeFile) → List (ForgeSearchResult S)
  path_result (ok (some file)) =
      record { file = file; references = []; relevance_score = scores.whole; match_type = "path" }
      ∷ []
  path_result (ok none) = []
  path_result (raise _) = []

  abbrev pub path_each : List String → List (ForgeSearchResult S)
  path_each [] = []
  path_each (changed ∷ rest) =
      path_result (forge.get_file_content query.mission_id changed) ++ path_each rest

  -- `_path_search`
  unfoldable pub path_search : List (ForgeSearchResult S)
  path_search = path_each query.changed_files

  -- The imports up to the first one whose search raises.
  abbrev pub extend_or_stop :
      Result (List (ForgeSearchResult S)) → List (ForgeSearchResult S) → List (ForgeSearchResult S)
  extend_or_stop (ok results) rest = results ++ rest
  extend_or_stop (raise _) rest = []

  abbrev pub import_each : List String → List (ForgeSearchResult S)
  import_each [] = []
  import_each (imp ∷ imps) =
      extend_or_stop (forge.search_lexical imp query.mission_id 3 []) (import_each imps)

  abbrev pub dependency_each : List String → List (ForgeSearchResult S)
  dependency_each [] = []
  dependency_each (changed ∷ rest) =
      import_each (get_or (forge.get_dependencies query.mission_id changed) [])
      ++ dependency_each rest

  -- `_dependency_search`
  unfoldable pub dependency_search : List (ForgeSearchResult S)
  dependency_search = take most (dependency_each query.changed_files)

  abbrev pub commit_result : String → String → ForgeSearchResult S
  commit_result changed message = record {
    file = record {
      path = changed;
      content = message;
      language = "git";
      size_bytes = size message;
      sha256 = "";
    };
    references = [];
    relevance_score = scores.of_history;
    match_type = "git_history";
  }

  abbrev pub history_each : List String → List (ForgeSearchResult S)
  history_each [] = []
  history_each (changed ∷ rest) =
      map (commit_result changed) (
        filter (λ message. texts.mentions message query.query_text)
          (get_or (forge.get_git_history query.mission_id changed 20) []))
      ++ history_each rest

  -- `_git_history_search`
  unfoldable pub git_history_search : List (ForgeSearchResult S)
  git_history_search = take most (history_each query.changed_files)

  abbrev pub searched : String → List (ForgeSearchResult S) → List (ForgeSearchResult S)
  searched strategy results = if elem strategy query.retrieval_strategies then results else []

  -- The strategies in the order in which `retrieve_context` runs them.
  unfoldable pub all_results : List (ForgeSearchResult S)
  all_results =
      searched "semantic" semantic_search
      ++ searched "lexical" lexical_search
      ++ searched "symbol" symbol_search
      ++ searched "path" path_search
      ++ searched "dependency" dependency_search
      ++ searched "git_history" git_history_search
