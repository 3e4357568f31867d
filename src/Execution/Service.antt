-- ===== src/Execution/Service.antt =====
-- core/application/execution_service.py: environments and the commands in them. Worktrees, sandboxes,
-- git and the collector of artifacts are the fields of `Sandboxes`, with an exception where they raise.
pub mod Environments
pub mod Lifecycle
pub mod Samples
use aura_automated_user_rag.Base.{
  ℕ, ℤ, Bool, String, ◌≟◌, string_eq, Option, none, some, List, [], ◌∷◌, filter, if◌then◌else◌,
  Result, ok, raise, Exception, value_error,
}
use Prim.Native.String.{◌++◌ as append}
use aura_automated_user_rag.Domain.Events.{
  Ambient, Value, Metadata, new_event, ident, text, text_or_null,
}
use aura_automated_user_rag.Domain.Executions.{
  ExecutionEnvironment, EnvironmentStatus, environment_status_eq, environment_value,
  ExecutionCommand, CommandResult, command_value, Artifact,
}
use aura_automated_user_rag.Store.{Database}
use aura_automated_user_rag.Store.Work.{
  Uow, pure, throw, reads, writes, commit, with_uow, ◌>>=◌, ◌>>◌, Script, then_run,
}
use aura_automated_user_rag.Store.Rows.{append_event}
use aura_automated_user_rag.Store.AgentRows.{
  create_environment_row, get_environment, update_environment, environments_of_execution,
  create_command_execution, create_artifact,
}
use aura_automated_user_rag.Gateway.Commands.{latest, integer_or_null}

pub record Sandboxes : Type 0 where
  pub get_base_commit : String → Result String
  pub create_worktree : ExecutionEnvironment → String → Result String
  pub create_sandbox : ExecutionEnvironment → Result (Unit {0})
  pub execute : ExecutionEnvironment → ExecutionCommand → Result CommandResult
  pub git_status : String → Result String
  pub git_diff : String → Result String
  pub write_text : String → String → Result (Unit {0})
  pub collect : ExecutionEnvironment → String → Result (Option Artifact)
  pub destroy : ExecutionEnvironment → Result (Unit {0})
  pub remove : ExecutionEnvironment → Result (Unit {0})
  pub str : Exception → String

abbrev pub is_ready : ExecutionEnvironment → Bool
is_ready env = env.status ≟ EnvironmentStatus.ready

module _ (g : Ambient) (boxes : Sandboxes) where
  -- The `except` clause of `create_environment`.
  abbrev pub failed_environment : ExecutionEnvironment → Exception → ExecutionEnvironment
  failed_environment env e = record env {
    status = EnvironmentStatus.failed;
    failure_reason = some (boxes.str e);
  }

  abbrev pub with_sandbox : ExecutionEnvironment → Result (Unit {0}) → ExecutionEnvironment
  with_sandbox env (raise e) = failed_environment env e
  with_sandbox env (ok _) = record env { status = EnvironmentStatus.ready }

  abbrev pub with_worktree : ExecutionEnvironment → Result String → ExecutionEnvironment
  with_worktree env (raise e) = failed_environment env e
  with_worktree env (ok path) =
      let placed : ExecutionEnvironment = record env { worktree_path = some path } in
      with_sandbox placed (boxes.create_sandbox placed)

  abbrev pub with_base : String → ExecutionEnvironment → Result String → ExecutionEnvironment
  with_base repository_id env (raise e) = failed_environment env e
  with_base repository_id env (ok sha) =
      let based : ExecutionEnvironment = record env { base_commit_sha = some sha } in
      with_worktree based (boxes.create_worktree based repository_id)

  module _ (mission_id task_id execution_id : ℕ) (repository_id : String) where
    abbrev pub new_environment : ExecutionEnvironment
    new_environment = record {
      id = g.uuid 0;
      mission_id = mission_id;
      task_id = task_id;
      execution_id = execution_id;
      status = EnvironmentStatus.creating;
      worktree_path = none;
      base_commit_sha = none;
      created_at = g.now 0;
      started_at = none;
      completed_at = none;
      failure_reason = none;
      metadata = [];
    }

    -- The environment after the `try` statement.
    abbrev pub provisioned : ExecutionEnvironment
    provisioned = with_base repository_id new_environment (boxes.get_base_commit repository_id)

    abbrev pub provision_event : ExecutionEnvironment → Database → Database
    provision_event env = append_event (
        new_event g 1
          (if is_ready env then "execution.environment.created" else "execution.environment.failed")
          mission_id none none
          (("environment_id", ident env.id)
            ∷ ("status", text (environment_value env.status))
            ∷ ("failure_reason", text_or_null env.failure_reason)
            ∷ []))

    abbrev pub provision : Database → ExecutionEnvironment × Database
    provision d =
        let d' = (with_uow (writes (create_environment_row new_environment) >> commit) d).1 in
        (
          provisioned,
          (with_uow
              (writes (update_environment provisioned)
                >> (writes (provision_event provisioned) >> commit))
              d').1,
        )

    abbrev pub reuse_or : Option ExecutionEnvironment → Database → ExecutionEnvironment × Database
    reuse_or (some env) d = (env, d)
    reuse_or none d = provision d

    -- `create_environment`
    unfoldable pub create_environment : Database → ExecutionEnvironment × Database
    create_environment d =
        reuse_or (latest (filter is_ready (environments_of_execution execution_id d))) d

  module _ (command : ExecutionCommand) where
    abbrev pub keep_artifact : ℕ → ExecutionEnvironment → Option Artifact → Uow (Unit {0})
    keep_artifact k env none = pure tt
    keep_artifact k env (some artifact) = do
      writes (create_artifact artifact)
      writes (
          append_event (
            new_event g k "artifact.created" env.mission_id none none
              (("artifact_id", ident artifact.id) ∷ ("path", text artifact.path) ∷ [])))
      commit

    abbrev pub keep_collected :
        ℕ → ExecutionEnvironment → Result (Option Artifact) → Script (Unit {0})
    keep_collected k env (raise e) d = (raise e, d)
    keep_collected k env (ok artifact) d = with_uow (keep_artifact k env artifact) d

    abbrev pub collect_written :
        ℕ → ExecutionEnvironment → String → Result (Unit {0}) → Script (Unit {0})
    collect_written k env name (raise e) d = (raise e, d)
    collect_written k env name (ok _) d = keep_collected k env (boxes.collect env name) d

    -- An output of git that is not empty is written to a file and collected.
    abbrev pub collect_output :
        ℕ → ExecutionEnvironment → String → String → Result String → Script (Unit {0})
    collect_output k env path name (raise e) d = (raise e, d)
    collect_output k env path name (ok output) d =
        if output ≟ ""
        then (ok tt, d)
        else collect_written k env name (boxes.write_text (append path (append "/" name)) output) d

    abbrev pub collect_at : ExecutionEnvironment → String → Database → Database
    collect_at env path d =
        (then_run (collect_output 2 env path ".aura_git_status" (boxes.git_status path) d)
          (λ _ d'. collect_output 3 env path ".aura_git_diff" (boxes.git_diff path) d')).1

    -- The collection of artifacts, whose exceptions are passed over.
    abbrev pub collect_artifacts : ExecutionEnvironment → Option String → Database → Database
    collect_artifacts env none d = d
    collect_artifacts env (some path) d = if path ≟ "" then d else collect_at env path d

    abbrev pub record_result : ExecutionEnvironment → CommandResult → Uow CommandResult
    record_result env result = do
      writes (create_command_execution result)
      writes (
          append_event (
            new_event g 1 "command.completed" env.mission_id none none (
              ("environment_id", ident env.id)
              ∷ ("command_id", ident result.id)
              ∷ ("status", text (command_value result.status))
              ∷ ("exit_code", integer_or_null result.exit_code)
              ∷ [])))
      commit
      pure result

    abbrev pub after_execution : ExecutionEnvironment → Result CommandResult → Script CommandResult
    after_execution env (raise e) d = (raise e, d)
    after_execution env (ok result) d =
        with_uow (record_result env result) (collect_artifacts env env.worktree_path d)

    abbrev pub execute_in : Option ExecutionEnvironment → Script CommandResult
    execute_in none d = (raise (value_error "Environment not ready"), d)
    execute_in (some env) d =
        if is_ready env
        then after_execution env (boxes.execute env command) d
        else (raise (value_error "Environment not ready"), d)

    -- `execute_command`
    unfoldable pub execute_command : ℕ → Script CommandResult
    execute_command environment_id d = execute_in (get_environment environment_id d) d

  abbrev pub cleanup_failed : ExecutionEnvironment → Exception → ExecutionEnvironment
  cleanup_failed env e = record env {
    status = EnvironmentStatus.failed;
    failure_reason = some (append "Cleanup failed: " (boxes.str e));
  }

  abbrev pub removed : ExecutionEnvironment → Result (Unit {0}) → ExecutionEnvironment
  removed env (raise e) = cleanup_failed env e
  removed env (ok _) = record env { status = EnvironmentStatus.destroyed }

  abbrev pub destroyed : ExecutionEnvironment → Result (Unit {0}) → ExecutionEnvironment
  destroyed env (raise e) = cleanup_failed env e
  destroyed env (ok _) = removed env (boxes.remove env)

  abbrev pub cleaning : ExecutionEnvironment → ExecutionEnvironment
  cleaning env = record env { status = EnvironmentStatus.cleaning_up }

  abbrev pub cleaned : ExecutionEnvironment → ExecutionEnvironment
  cleaned env = destroyed (cleaning env) (boxes.destroy (cleaning env))

  abbrev pub cleanup_event : ExecutionEnvironment → Database → Database
  cleanup_event env = append_event (
      new_event g 0
        (if env.status ≟ EnvironmentStatus.destroyed
          then "execution.environment.destroyed"
          else "execution.environment.cleanup_failed")
        env.mission_id none none
        (("environment_id", ident env.id) ∷ ("status", text (environment_value env.status)) ∷ []))

  abbrev pub clean_found : Option ExecutionEnvironment → Database → Database
  clean_found none d = d
  clean_found (some env) d =
      let d' = (with_uow (writes (update_environment (cleaning env)) >> commit) d).1 in
      (with_uow
        (writes (update_environment (cleaned env))
          >> (writes (cleanup_event (cleaned env)) >> commit))
        d').1

  -- `cleanup_environment`
  unfoldable pub cleanup_environment : ℕ → Database → Database
  cleanup_environment environment_id d = clean_found (get_environment environment_id d) d
