-- ===== src/Retrieval/Builders.antt =====
-- `ContextAssemblyService`: the query of each kind of agent.
use aura_automated_user_rag.Base.{
  ℕ, String, ◌≟◌, string_eq, Option, none, some, List, [], ◌∷◌, ◌++◌, prefix, if◌then◌else◌,
}
use Prim.Native.String.{◌++◌ as append}
use aura_automated_user_rag.Domain.Events.{Metadata, json}
use aura_automated_user_rag.Retrieval.{RetrievalQuery}

-- `RetrievalQuery(…)` with the defaults of the fields that the builders leave out.
abbrev pub query_of :
    ℕ
    → Option ℕ
    → String
    → String
    → List String
    → List String
    → Option String
    → ℕ
    → List String
    → Metadata
    → RetrievalQuery
query_of mission_id task_id query_text task_type criteria changed error budget strategies filters =
    record {
      mission_id = mission_id;
      task_id = task_id;
      agent_id = none;
      query_text = query_text;
      task_type = some task_type;
      acceptance_criteria = criteria;
      changed_files = changed;
      error_context = error;
      max_results = 20;
      token_budget = budget;
      retrieval_strategies = strategies;
      metadata_filters = filters;
    }

-- `build_planner_context`
unfoldable pub planner_query : ℕ → String → RetrievalQuery
planner_query mission_id requirements =
    query_of mission_id none requirements "planning" [] [] none 12000
      ("semantic" ∷ "lexical" ∷ "path" ∷ "dependency" ∷ [])
      (("file_patterns", json "['*.py', '*.js', '*.ts', '*.go', '*.rs', '*.md', '*.yaml', '*.yml']")
        ∷ [])

-- `build_coder_context`
unfoldable pub coder_query : ℕ → ℕ → String → List String → List String → RetrievalQuery
coder_query mission_id task_id task_description acceptance_criteria changed_files =
    query_of mission_id (some task_id) task_description "implementation" acceptance_criteria
      changed_files none 8000 ("semantic" ∷ "lexical" ∷ "symbol" ∷ "path" ∷ "dependency" ∷ []) []

-- `build_debugger_context`
unfoldable pub debugger_query : ℕ → ℕ → String → List String → RetrievalQuery
debugger_query mission_id task_id error_context changed_files =
    query_of mission_id (some task_id) error_context "debugging" [] changed_files
      (some error_context) 8000
      ("semantic" ∷ "lexical" ∷ "symbol" ∷ "git_history" ∷ "dependency" ∷ []) []

-- `build_tester_context`
unfoldable pub tester_query : ℕ → ℕ → String → List String → RetrievalQuery
tester_query mission_id task_id test_requirements changed_files =
    query_of mission_id (some task_id) test_requirements "testing" [] changed_files none 8000
      ("semantic" ∷ "lexical" ∷ "symbol" ∷ "path" ∷ []) []

abbrev pub review_strategies : String → List String
review_strategies review_type =
    ("semantic" ∷ "lexical" ∷ "symbol" ∷ "path" ∷ "git_history" ∷ [])
    ++ (if review_type ≟ "security" then "dependency" ∷ [] else [])

-- `build_reviewer_context`
unfoldable pub reviewer_query : ℕ → ℕ → String → List String → String → RetrievalQuery
reviewer_query mission_id task_id diff changed_files review_type =
    query_of mission_id (some task_id) (append review_type (append " review: " (prefix 2000 diff)))
      "review" [] changed_files none 10000 (review_strategies review_type) []
