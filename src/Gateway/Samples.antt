-- ===== src/Gateway/Samples.antt =====
-- A host that has one file, a policy that lets an agent read, and calls of tools.
use aura_automated_user_rag.Base.{
  ℕ, ◌≤◌, Bool, true, false, String, ◌≟◌, string_eq, none, some, List, [], ◌∷◌, ◌++◌, ◌≡◌, ◌≢◌, inl,
  inr, refl, sym, ap, subst, In, select, modify, Bool-cases, Result, ok, raise, value_error,
  if◌then◌else◌,
}
use mathlib.Core.Option
use aura_automated_user_rag.Domain.Events.{null}
use aura_automated_user_rag.Domain.Missions.{MissionStatus}
use aura_automated_user_rag.Domain.Executions.{ExecutionEnvironment, EnvironmentStatus}
use aura_automated_user_rag.Domain.Agents.{AgentCapability}
use aura_automated_user_rag.Domain.Agents.Runs.{AgentRun, AgentRunStatus}
use aura_automated_user_rag.Domain.Agents.Tools.{AgentPolicy, ToolResult}
use aura_automated_user_rag.Domain.Samples.{ambient, database_of}
use aura_automated_user_rag.Store.{Database}
use aura_automated_user_rag.Store.AgentRows.{
  environments_of_execution, get_tool_call, create_tool_call, update_tool_call,
}
use aura_automated_user_rag.Execution.Paths.{resolve_within_directory}
use aura_automated_user_rag.Execution.Samples.{flat_paths, components, flat_is_common}
use aura_automated_user_rag.Gateway.{Host}
use aura_automated_user_rag.Gateway.Files.{validate_worktree_path, read_file, write_file}
use aura_automated_user_rag.Gateway.Commands.{is_usable, usable_environment}
use aura_automated_user_rag.Gateway.Environments.{usable_environment-latest}
use aura_automated_user_rag.Gateway.Confined.{
  FileSystem, on, IsDirname, Alike, Inside, files-Confined,
}
use aura_automated_user_rag.Gateway.Calls.{execute_tool, execute_tool_impl}
use aura_automated_user_rag.Gateway.Calls.Safety.{Granted, execute_tool-Granted}
use aura_automated_user_rag.Gateway.Calls.Settled.{Settled, execute_tool-Settled}

abbrev pub host : Host
host = record {
  paths = flat_paths;
  exists = λ _. true;
  isfile = λ _. true;
  getsize = λ _. 3;
  read_text = λ _. ok "abc";
  dirname = λ _. "/";
  makedirs = λ _. ok tt;
  write_text = λ _ _. ok tt;
  encoded_length = λ _. 3;
  git = λ _ _. ok (record { succeeded = true; stdout = ""; stderr = "" });
  parse_path = λ _. ok "/work";
  parse_write = λ _. ok ("/work", "abc");
  parse_git = λ _. ok "/work";
  parse_command = λ _. raise (value_error "executable");
  parse_tests = λ _. raise (value_error "command");
  parse_finish = λ _. ok ("done", true);
  list_directory = λ _ _. ok (true, none, none);
  search_repository = λ _ _. ok (true, none, none);
  execute_command = λ _ _ d. (raise (value_error "Environment not ready"), d);
  str = λ _. "error";
  shown = λ _. "{}";
}

abbrev pub policy : AgentPolicy
policy = record {
  allowed_capabilities = AgentCapability.read_repository ∷ [];
  denied_capabilities = AgentCapability.run_command ∷ [];
  max_iterations = 3;
  max_tool_calls = 5;
  max_runtime_seconds = 60;
  max_failed_actions = 2;
  requires_approval_for = [];
}

abbrev pub agent_run : AgentRunStatus → AgentRun
agent_run status = record {
  id = 30;
  mission_id = 1;
  task_id = 2;
  task_execution_id = 1000;
  agent_id = 7;
  status = status;
  iteration_count = 1;
  tool_call_count = 1;
  max_iterations = 3;
  max_tool_calls = 5;
  max_runtime_seconds = 60;
  max_failed_actions = 2;
  started_at = none;
  completed_at = none;
  failure_reason = none;
  final_result = null;
  created_at = 0;
  updated_at = 0;
}

abbrev database : Database
database = database_of MissionStatus.executing [] []

abbrev absent : Host
absent = record host { exists = λ _. false }

abbrev succeeded : Result ToolResult × Database → Bool
succeeded (ok result, d) = result.success
succeeded (raise e, d) = false

differ :
    execute_tool ambient policy host
      (agent_run AgentRunStatus.running)
      "READ_FILE"
      []
      "/work"
      database
    ≢ execute_tool ambient policy absent
        (agent_run AgentRunStatus.running)
        "READ_FILE"
        []
        "/work"
        database
unfolding execute_tool execute_tool_impl read_file validate_worktree_path resolve_within_directory
differ h = let e : true ≡ false = ap succeeded h in absurd (cc)

execute_tool-Granted_example : Granted policy (agent_run AgentRunStatus.running) "READ_FILE"
execute_tool-Granted_example =
    execute_tool-Granted ambient policy host absent (agent_run AgentRunStatus.running) "READ_FILE"
      [] "/work" database differ

execute_tool-Settled_example :
    (result : ToolResult) × ((execute_tool ambient policy host
        (agent_run AgentRunStatus.running)
        "READ_FILE"
        []
        "/work"
        database).0
      ≡ ok result)
    × Settled ambient policy host
        (agent_run AgentRunStatus.running)
        "READ_FILE"
        []
        "/work"
        database
        (execute_tool ambient policy host
          (agent_run AgentRunStatus.running)
          "READ_FILE"
          []
          "/work"
          database).1
        result
unfolding execute_tool_impl get_tool_call create_tool_call update_tool_call select modify
execute_tool-Settled_example =
    execute_tool-Settled ambient policy host (agent_run AgentRunStatus.running) "READ_FILE" []
      "/work" database refl (_, refl)

abbrev environment : ℕ → EnvironmentStatus → ExecutionEnvironment
environment created_at status = record {
  id = 20;
  mission_id = 1;
  task_id = 2;
  execution_id = 1000;
  status = status;
  worktree_path = some "/work";
  base_commit_sha = none;
  created_at = created_at;
  started_at = none;
  completed_at = none;
  failure_reason = none;
  metadata = [];
}

abbrev with_environments : Database
with_environments = record database {
  execution_environments =
      environment 5 EnvironmentStatus.ready
      ∷ environment 9 EnvironmentStatus.ready
      ∷ environment 12 EnvironmentStatus.failed
      ∷ [];
}

usable_environment-latest_example :
    In (environment 9 EnvironmentStatus.ready) (environments_of_execution 1000 with_environments)
    × (is_usable (environment 9 EnvironmentStatus.ready) ≡ true)
    × ((env : ExecutionEnvironment)
        → In env (environments_of_execution 1000 with_environments)
        → is_usable env ≡ true
        → env.created_at ≤ 9)
unfolding usable_environment environments_of_execution
usable_environment-latest_example =
    usable_environment-latest 1000 with_environments (environment 9 EnvironmentStatus.ready) refl

-- Two file systems that differ only at a path outside of the worktree.
abbrev files : Result String → FileSystem
files elsewhere = record {
  exists = λ _. true;
  isfile = λ _. true;
  getsize = λ _. 3;
  read_text = λ p. if p ≟ "/other" then elsewhere else ok "abc";
  makedirs = λ _. ok tt;
  write_text = λ _ _. ok tt;
}

abbrev head : List String → String
head [] = ""
head (x ∷ xs) = x

short : (p base x : String) (rest : List String) → components p ≢ (base ∷ x ∷ rest)
short p base x rest h = elim (Bool-cases (p ≟ "/")) [
  | inl root ↦ let bad : [] ≡ base ∷ x ∷ rest = rw root at h in absurd (cc)
  | inr other ↦ let bad : p ∷ [] ≡ base ∷ x ∷ rest = rw other at h in absurd (cc)
]

flat_is_dirname : IsDirname (host.dirname) components
flat_is_dirname p base x rest h = elim (Bool-cases (base ≟ "/")) [
  | inl root ↦ rw root ([], refl)
  | inr other ↦
      let split : components p ≡ base ∷ x ∷ rest = rw other at h in
      absurd (short p base x rest split)
]

apart_from_other :
    (p : String)
    → Inside host components flat_is_common flat_is_dirname "/work" p
    → (p ≟ "/other") ≡ false
apart_from_other p (base, is_base, (rest, split)) = elim (Bool-cases (p ≟ "/other")) [
  | inr different ↦ different
  | inl same ↦
      let e : p ≡ "/other" = (string_eq.beq_iff p "/other").0 same in
      let b : "/work" ≡ base = Option.some-injective "/work" base is_base in
      let there : components "/other" ≡ components "/work" ++ rest =
        subst (λ q. components "/other" ≡ components q ++ rest) (sym b)
          (subst (λ q. components q ≡ components base ++ rest) e split) in
      let bad : true ≡ false = ap (λ (l : List String). head l ≟ "/other") there in absurd (cc)
]

alike :
    (p : String)
    → Inside host components flat_is_common flat_is_dirname "/work" p
    → Alike (files (ok "secret")) (files (raise (value_error "gone"))) p
alike p inside = record {
  same_exists = refl;
  same_isfile = refl;
  same_getsize = refl;
  same_read = rw (apart_from_other p inside) refl;
  same_makedirs = refl;
  same_write = λ _. refl;
}

files-Confined_example :
    (read_file (on host (files (ok "secret"))) "/work" []
      ≡ read_file (on host (files (raise (value_error "gone")))) "/work" [])
    × (write_file (on host (files (ok "secret"))) "/work" []
        ≡ write_file (on host (files (raise (value_error "gone")))) "/work" [])
files-Confined_example =
    files-Confined host components flat_is_common flat_is_dirname "/work" (files (ok "secret"))
      (files (raise (value_error "gone"))) alike (λ _ _ _ _. refl) []
