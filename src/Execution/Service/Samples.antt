-- ===== src/Execution/Service/Samples.antt =====
-- An environment that is made, asked for again and cleaned up.
use aura_automated_user_rag.Base.{pos, none, [], ◌≡◌, refl, ok, raise, value_error, select}
use aura_automated_user_rag.Domain.Missions.{MissionStatus}
use aura_automated_user_rag.Domain.Events.{shift}
use aura_automated_user_rag.Domain.Executions.{ExecutionCommand}
use aura_automated_user_rag.Domain.Samples.{ambient, database_of}
use aura_automated_user_rag.Store.{Database}
use aura_automated_user_rag.Store.AgentRows.{get_environment, environments_of_execution}
use aura_automated_user_rag.Execution.Service.{
  Sandboxes, create_environment, execute_command, cleanup_environment,
}
use aura_automated_user_rag.Execution.Service.Environments.{create_environment-again}
use aura_automated_user_rag.Execution.Service.Lifecycle.{cleanup_environment-execute_command}

abbrev boxes : Sandboxes
boxes = record {
  get_base_commit = λ _. ok "abc";
  create_worktree = λ _ _. ok "/work";
  create_sandbox = λ _. ok tt;
  execute = λ _ _. raise (value_error "no sandbox");
  git_status = λ _. ok "";
  git_diff = λ _. ok "";
  write_text = λ _ _. ok tt;
  collect = λ _ _. ok none;
  destroy = λ _. ok tt;
  remove = λ _. raise (value_error "busy");
  str = λ _. "error";
}

abbrev database : Database
database = database_of MissionStatus.executing [] []

abbrev command : ExecutionCommand
command = record {
  executable = "git";
  arguments = [];
  working_directory = "/work";
  timeout_seconds = pos 300;
  environment = [];
  stdin = none;
}

create_environment-again_example :
    create_environment
      (shift 100 ambient)
      boxes
      1
      2
      1000
      "repository"
      (create_environment ambient boxes 1 2 1000 "repository" database).1
    ≡ create_environment ambient boxes 1 2 1000 "repository" database
unfolding create_environment environments_of_execution get_environment select
create_environment-again_example =
    create_environment-again ambient boxes 1 2 1000 "repository" (shift 100 ambient) boxes database
      refl refl

abbrev made : Database
made = (create_environment ambient boxes 1 2 1000 "repository" database).1

cleanup_environment-execute_command_example :
    execute_command
      (shift 200 ambient)
      boxes
      command
      1000
      (cleanup_environment (shift 100 ambient) boxes 1000 made)
    ≡ (
      raise (value_error "Environment not ready"),
      cleanup_environment (shift 100 ambient) boxes 1000 made,
    )
cleanup_environment-execute_command_example =
    cleanup_environment-execute_command (shift 100 ambient) boxes (shift 200 ambient) boxes command
      1000 made
