-- ===== src/Orphans/Samples.antt =====
-- A directory without a marker, one of an environment that failed, and one of an environment in use.
use aura_automated_user_rag.Base.{
  ℕ, none, some, List, [], ◌∷◌, ◌≡◌, refl, ◌≟◌, string_eq, if◌then◌else◌, select, modify,
}
use aura_automated_user_rag.Domain.Missions.{MissionStatus}
use aura_automated_user_rag.Domain.Executions.{ExecutionEnvironment, EnvironmentStatus}
use aura_automated_user_rag.Domain.Samples.{ambient, database_of}
use aura_automated_user_rag.Store.{Database}
use aura_automated_user_rag.Store.AgentRows.{get_environment, update_environment}
use aura_automated_user_rag.Store.Rows.{append_event}
use aura_automated_user_rag.Orphans.{
  WorktreeDirectory, Markers, marked, clean_orphan, visit_all, recover_orphans,
}
use aura_automated_user_rag.Orphans.Safety.{Cautious, recover_orphans-Cautious}

abbrev markers : Markers
markers = record {
  environment_text = λ s. some s;
  uuid = λ s. if s ≟ "20" then some 20 else some 21;
}

abbrev environment : ℕ → EnvironmentStatus → ExecutionEnvironment
environment id status = record {
  id = id;
  mission_id = 1;
  task_id = 2;
  execution_id = 1000;
  status = status;
  worktree_path = some "/work";
  base_commit_sha = none;
  created_at = 0;
  started_at = none;
  completed_at = none;
  failure_reason = none;
  metadata = [];
}

abbrev database : Database
database = record (database_of MissionStatus.executing [] []) {
  execution_environments =
      environment 20 EnvironmentStatus.failed ∷ environment 21 EnvironmentStatus.ready ∷ [];
}

abbrev dirs : List WorktreeDirectory
dirs =
    record { exec_path = "/a"; marker = none }
    ∷ record { exec_path = "/b"; marker = some "20" }
    ∷ record { exec_path = "/c"; marker = some "21" }
    ∷ []

only_failed_deleted : (recover_orphans markers (λ k. ambient) dirs database).0 ≡ "/b" ∷ []
unfolding recover_orphans visit_all clean_orphan marked get_environment select append_event
    update_environment modify
only_failed_deleted = refl

recover_orphans-Cautious_example :
    Cautious markers dirs database (recover_orphans markers (λ k. ambient) dirs database)
recover_orphans-Cautious_example = recover_orphans-Cautious markers (λ k. ambient) dirs database
