-- ===== src/Gateway/Calls/Plain.antt =====
-- A call always returns, and only FINISH_TASK returns metadata.
use aura_automated_user_rag.Base.{
  Bool, true, false, ltb, ◌≟◌, string_eq, String, Option, none, some, [], ◌≡◌, inl, inr, refl,
  Bool-cases, Option-cases, Result, ok, raise, ◌>>=◌, if◌then◌else◌,
}
use aura_automated_user_rag.Domain.Events.{Ambient, Metadata}
use aura_automated_user_rag.Domain.Executions.{ExecutionEnvironment, ExecutionCommand}
use aura_automated_user_rag.Domain.Agents.Runs.{AgentRun}
use aura_automated_user_rag.Domain.Agents.Tools.{AgentPolicy, check_limits, Output, ToolResult}
use aura_automated_user_rag.Store.{Database}
use aura_automated_user_rag.Gateway.{Host, CommandInput, GitOutcome, caught}
use aura_automated_user_rag.Gateway.Files.{
  validate_worktree_path, max_size, read_at, read_file, write_at, write_file, git_outcome, git_at,
  ask_git,
}
use aura_automated_user_rag.Gateway.Commands.{
  usable_environment, command_output, execute_in, command_within, command_with, run_parsed,
  run_command, tests_with, tests_at, test_parsed, run_tests,
}
use aura_automated_user_rag.Gateway.Calls.{
  required_capability, check_capability, reported_result, settle, execute_tool, execute_tool_impl,
  started,
}

-- A result without metadata, if there is one.
abbrev pub Plain : Result ToolResult → Type 0
Plain (ok result) = result.metadata ≡ []
Plain (raise e) = Unit {0}

bind-Plain :
    {A : Type 0} (r : Result A) (f : A → Result ToolResult)
    → ((a : A) → Plain (f a))
    → Plain (r >>= f)
bind-Plain (ok a) f plain = plain a
bind-Plain (raise e) f plain = tt

reported-Plain : (r : Result (Bool × Option Output × Option String)) → Plain (reported_result r)
reported-Plain (ok outcome) = refl
reported-Plain (raise e) = tt

module _ (host : Host) where
  caught-Plain :
      {A : Type 0} (f : A → ToolResult) (r : Result A)
      → ((a : A) → (f a).metadata ≡ [])
      → (caught host f r).metadata ≡ []
  caught-Plain f (ok a) plain = plain a
  caught-Plain f (raise e) plain = refl

  module _ (worktree_path : String) where
    read_at-Plain : (p : Option String) → (read_at host worktree_path p).metadata ≡ []
    read_at-Plain none = refl
    read_at-Plain (some p) = elim (Bool-cases (host.exists p)) [
      | inr gone ↦ rw gone refl
      | inl there ↦ elim (Bool-cases (host.isfile p)) [
        | inr folder ↦ rw (there, folder) refl
        | inl file ↦ elim (Bool-cases (ltb max_size (host.getsize p))) [
          | inl large ↦ rw (there, file, large) refl
          | inr small ↦ rw (there, file, small) (caught-Plain _ (host.read_text p) (λ a. refl))
        ]
      ]
    ]

    read_file-Plain : (arguments : Metadata) → Plain (read_file host worktree_path arguments)
    unfolding read_file
    read_file-Plain arguments =
        bind-Plain (host.parse_path arguments) _
          (λ path. read_at-Plain (validate_worktree_path host.paths worktree_path path))

    write_at-Plain :
        (content : String) (p : Option String) → Plain (write_at host worktree_path content p)
    write_at-Plain content none = refl
    write_at-Plain content (some p) = bind-Plain (host.makedirs (host.dirname p)) _ λ _.
        elim (Bool-cases (ltb max_size (host.encoded_length content))) [
          | inl large ↦ rw large refl
          | inr small ↦ rw small (caught-Plain _ (host.write_text p content) (λ a. refl))
        ]

    write_file-Plain : (arguments : Metadata) → Plain (write_file host worktree_path arguments)
    unfolding write_file
    write_file-Plain arguments =
        bind-Plain (host.parse_write arguments) _ (λ input.
          write_at-Plain input.1 (validate_worktree_path host.paths worktree_path input.0))

    git_outcome-Plain : (o : GitOutcome) → (git_outcome host worktree_path o).metadata ≡ []
    git_outcome-Plain o = elim (Bool-cases o.succeeded) [
      | inl fine ↦ rw fine refl
      | inr failed ↦ rw failed refl
    ]

    git_at-Plain :
        (command : String) (p : Option String) → (git_at host worktree_path command p).metadata ≡ []
    git_at-Plain command none = refl
    git_at-Plain command (some p) = caught-Plain _ (host.git p command) git_outcome-Plain

    ask_git-Plain :
        (command : String) (arguments : Metadata)
        → Plain (ask_git host worktree_path command arguments)
    unfolding ask_git
    ask_git-Plain command arguments =
        bind-Plain (host.parse_git arguments) _
          (λ path. git_at-Plain command (validate_worktree_path host.paths worktree_path path))

    execute_in-Plain :
        (env : ExecutionEnvironment) (command : ExecutionCommand) (d : Database)
        → Plain (execute_in host env command d).0
    execute_in-Plain env command d =
        caught-Plain (command_output host) (host.execute_command env.id command d).0 (λ a. refl)

    module _ (agent_run : AgentRun) where
      command_within-Plain :
          (input : CommandInput) (env : ExecutionEnvironment) (p : Option String) (d : Database)
          → Plain (command_within host worktree_path agent_run input env p d).0
      command_within-Plain input env none d = refl
      command_within-Plain input env (some p) d = execute_in-Plain env _ d

      command_with-Plain :
          (input : CommandInput) (env : Option ExecutionEnvironment) (d : Database)
          → Plain (command_with host worktree_path agent_run input env d).0
      command_with-Plain input none d = refl
      command_with-Plain input (some env) d =
          command_within-Plain input env
            (validate_worktree_path host.paths worktree_path input.working_directory) d

      run_parsed-Plain :
          (r : Result CommandInput) (d : Database)
          → Plain (run_parsed host worktree_path agent_run r d).0
      run_parsed-Plain (raise e) d = tt
      run_parsed-Plain (ok input) d =
          command_with-Plain input (usable_environment agent_run.task_execution_id d) d

      tests_with-Plain :
          (command : ExecutionCommand) (env : Option ExecutionEnvironment) (d : Database)
          → Plain (tests_with host worktree_path agent_run command env d).0
      tests_with-Plain command none d = refl
      tests_with-Plain command (some env) d = execute_in-Plain env command d

      tests_at-Plain :
          (input : CommandInput) (p : Option String) (d : Database)
          → Plain (tests_at host worktree_path agent_run input p d).0
      tests_at-Plain input none d = refl
      tests_at-Plain input (some p) d =
          tests_with-Plain _ (usable_environment agent_run.task_execution_id d) d

      test_parsed-Plain :
          (r : Result CommandInput) (d : Database)
          → Plain (test_parsed host worktree_path agent_run r d).0
      test_parsed-Plain (raise e) d = tt
      test_parsed-Plain (ok input) d =
          tests_at-Plain input
            (validate_worktree_path host.paths worktree_path input.working_directory) d

module _ (g : Ambient) (policy : AgentPolicy) (host : Host) (agent_run : AgentRun)
    (tool_name : String) (arguments : Metadata) (worktree_path : String) where
  branch-Plain :
      (test : Bool) (a b : Result ToolResult × Database)
      → Plain a.0
      → Plain b.0
      → Plain (if test then a else b).0
  branch-Plain true a b x y = x
  branch-Plain false a b x y = y

  execute_tool_impl-Plain :
      (d : Database)
      → (tool_name ≟ "FINISH_TASK") ≡ false
      → Plain (execute_tool_impl g policy host agent_run tool_name arguments worktree_path d).0
  unfolding execute_tool_impl run_command run_tests
  execute_tool_impl-Plain d other =
      branch-Plain (tool_name ≟ "READ_FILE") _ _ (read_file-Plain host worktree_path arguments) (
        branch-Plain (tool_name ≟ "LIST_DIRECTORY") _ _
          (reported-Plain (host.list_directory arguments worktree_path))
          (branch-Plain (tool_name ≟ "SEARCH_REPOSITORY") _ _
            (reported-Plain (host.search_repository arguments worktree_path))
            (branch-Plain (tool_name ≟ "WRITE_FILE") _ _
              (write_file-Plain host worktree_path arguments)
              (branch-Plain (tool_name ≟ "RUN_COMMAND") _ _
                (run_parsed-Plain host worktree_path agent_run (host.parse_command arguments) d)
                (branch-Plain (tool_name ≟ "GET_GIT_STATUS") _ _
                  (ask_git-Plain host worktree_path "status --porcelain" arguments)
                  (branch-Plain (tool_name ≟ "GET_GIT_DIFF") _ _
                    (ask_git-Plain host worktree_path "diff" arguments)
                    (branch-Plain (tool_name ≟ "RUN_TESTS") _ _
                      (test_parsed-Plain host worktree_path agent_run (host.parse_tests arguments)
                        d)
                      (rw other refl))))))))

  -- A result that is there, without metadata.
  abbrev pub ReturnsPlain : Result ToolResult → Type 0
  ReturnsPlain r = (result : ToolResult) × (r ≡ ok result) × (result.metadata ≡ [])

  settle-ReturnsPlain :
      (r : Result ToolResult) (d : Database)
      → Plain r
      → ReturnsPlain (settle g policy host agent_run tool_name arguments worktree_path (r, d)).0
  settle-ReturnsPlain (ok result) d plain = (result, refl, plain)
  settle-ReturnsPlain (raise e) d plain = (_, refl, refl)

  -- A call of another tool than FINISH_TASK returns a result, and the result has no metadata.
  pub execute_tool-ReturnsPlain :
      (d : Database)
      → (tool_name ≟ "FINISH_TASK") ≡ false
      → ReturnsPlain (execute_tool g policy host agent_run tool_name arguments worktree_path d).0
  unfolding execute_tool
  execute_tool-ReturnsPlain d other = elim (Option-cases (check_limits policy agent_run)) [
    | inr (reason, over) ↦ rw over (_, refl, refl)
    | inl below ↦ elim (Option-cases (required_capability tool_name)) [
      | inl unknown ↦ rw (below, unknown) (_, refl, refl)
      | inr (capability, required) ↦ elim (Option-cases (check_capability policy capability)) [
        | inr (reason, refused_is) ↦ rw (below, required, refused_is) (_, refl, refl)
        | inl fine ↦
            let d' = started g policy host agent_run tool_name arguments worktree_path d in
            rw (below, required, fine)
              (settle-ReturnsPlain
                (execute_tool_impl g policy host agent_run tool_name arguments worktree_path d').0 _
                (execute_tool_impl-Plain d' other))
      ]
    ]
  ]
