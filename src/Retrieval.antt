-- ===== src/Retrieval.antt =====
-- core/application/rag/service.py: the retrieval of context. A relevance is of a type `S`, since the
-- source has floating-point numbers, and the provider of a forge is a parameter.
pub mod Search
pub mod Assembly
pub mod Builders
pub mod Budget
pub mod Sources
pub mod Samples
use aura_automated_user_rag.Base.{
  ℕ, ◌/◌, ◌+◌, max, Bool, String, Option, List, [], ◌∷◌, Result, size,
}
use aura_automated_user_rag.Domain.Events.{Metadata}

-- core/infrastructure/forge/interfaces.py: `ForgeFile`, and the `context` of each reference.
pub record ForgeFile : Type 0 where
  pub path : String
  pub content : String
  pub language : String
  pub size_bytes : ℕ
  pub sha256 : String

pub record ForgeSearchResult (S : Type 0) : Type 0 where
  pub file : ForgeFile
  pub references : List String
  pub relevance_score : S
  pub match_type : String

pub record RetrievalQuery : Type 0 where
  pub mission_id : ℕ
  pub task_id : Option ℕ
  pub agent_id : Option ℕ
  pub query_text : String
  pub task_type : Option String
  pub acceptance_criteria : List String
  pub changed_files : List String
  pub error_context : Option String
  pub max_results : ℕ
  pub token_budget : ℕ
  pub retrieval_strategies : List String
  pub metadata_filters : Metadata

pub record RetrievedContext (S : Type 0) : Type 0 where
  pub content : String
  pub source : String
  pub source_type : String
  pub relevance_score : S
  pub tokens : ℕ
  pub metadata : Metadata
  pub provenance : Metadata

pub record ContextBundle (S : Type 0) : Type 0 where
  pub mission_id : ℕ
  pub task_id : Option ℕ
  pub query : String
  pub contexts : List (RetrievedContext S)
  pub total_tokens : ℕ
  pub token_budget : ℕ
  pub retrieved_at : ℕ
  pub retrieval_strategies_used : List String
  pub metadata : Metadata

-- `TokenCounter.count_tokens` and `count_tokens_list`
abbrev pub count_tokens : String → ℕ
count_tokens text = max 1 (size text / 4)

abbrev pub count_tokens_list : List String → ℕ
count_tokens_list [] = 0
count_tokens_list (text ∷ texts) = count_tokens text + count_tokens_list texts

-- The relevances: the test against the threshold, the order, the two scores that are set by the
-- service, and the product with 0.8.
pub record Scores (S : Type 0) : Type 0 where
  pub is_below_threshold : S → Bool
  pub less : S → S → Bool
  pub whole : S
  pub of_history : S
  pub reduce : S → S

-- `ForgeContextProvider`, with an exception where it raises: the messages of a history, and the
-- imports of the dependencies.
pub record Forge (S : Type 0) : Type 0 where
  pub search_semantic : String → ℕ → ℕ → Metadata → Result (List (ForgeSearchResult S))
  pub search_lexical : String → ℕ → ℕ → Metadata → Result (List (ForgeSearchResult S))
  pub search_symbols : String → ℕ → ℕ → Result (List (ForgeSearchResult S))
  pub get_file_content : ℕ → String → Result (Option ForgeFile)
  pub get_dependencies : ℕ → String → Result (List String)
  pub get_git_history : ℕ → String → ℕ → Result (List String)

-- The regular expressions and `in` on lower-case texts, which are Python's, and SHA-256.
pub record Texts : Type 0 where
  pub extract_symbols : String → List String
  pub mentions : String → String → Bool
  pub digest : String → String
  pub sort_texts : List String → List String
  pub str_id : ℕ → String
