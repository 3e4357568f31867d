-- ===== src/Orphans.antt =====
-- core/application/orphan_recovery.py: `recover_orphans`. The directories under the root of the
-- worktrees, in the order of the three nested loops, are an argument; a directory that is deleted is
-- an entry of a list.
pub mod Safety
pub mod Samples
use aura_automated_user_rag.Base.{
  ℕ, ◌+◌, Bool, true, false, String, ◌≟◌, string_eq, ◌||◌, Option, none, some, List, [], ◌∷◌, ◌++◌,
  if◌then◌else◌, nonempty,
}
use aura_automated_user_rag.Domain.Events.{Ambient, Metadata, new_event, text, shift}
use aura_automated_user_rag.Domain.Executions.{
  ExecutionEnvironment, EnvironmentStatus, environment_status_eq,
}
use aura_automated_user_rag.Store.{Database}
use aura_automated_user_rag.Store.Work.{Uow, pure, writes, commit, with_uow, ◌>>=◌, ◌>>◌}
use aura_automated_user_rag.Store.Rows.{append_event}
use aura_automated_user_rag.Store.AgentRows.{get_environment, update_environment}

-- A directory of an execution, and the text of its marker, stripped, where there is a marker.
pub record WorktreeDirectory : Type 0 where
  pub exec_path : String
  pub marker : Option String

-- `content.startswith("environment_id=")` and `content.split("=")[1]`, and the parsing of an
-- identifier: none where it raises.
pub record Markers : Type 0 where
  pub environment_text : String → Option String
  pub uuid : String → Option ℕ

abbrev pub paired : String → Option ℕ → Option (String × ℕ)
paired s none = none
paired s (some env_id) = some (s, env_id)

module _ (markers : Markers) where
  -- `env_id_str`, where it is not empty.
  abbrev pub text_in : Option String → Option String
  text_in none = none
  text_in (some content) = nonempty (markers.environment_text content)

  abbrev pub identified_by : Option String → Option (String × ℕ)
  identified_by none = none
  identified_by (some s) = paired s (markers.uuid s)

  -- The text and the identifier of the environment that a directory is marked with.
  unfoldable pub marked : WorktreeDirectory → Option (String × ℕ)
  marked dir = identified_by (text_in dir.marker)

-- Whether the environment of a directory is not there or is over.
abbrev pub is_orphan : Option ExecutionEnvironment → Bool
is_orphan none = true
is_orphan (some env) =
    (env.status ≟ EnvironmentStatus.destroyed) || (env.status ≟ EnvironmentStatus.failed)

abbrev pub mission_of_environment : Option ExecutionEnvironment → ℕ
mission_of_environment none = 0
mission_of_environment (some env) = env.mission_id

module _ (g : Ambient) (exec_path env_id_str : String) (found : Option ExecutionEnvironment) where
  abbrev pub orphan_event : ℕ → String → Database → Database
  orphan_event k event_type = append_event (
      new_event g k event_type (mission_of_environment found) none none
        (("environment_id", text env_id_str) ∷ ("path", text exec_path) ∷ []))

  abbrev pub mark_destroyed : Option ExecutionEnvironment → Database → Database
  mark_destroyed none d = d
  mark_destroyed (some env) d =
      update_environment (record env { status = EnvironmentStatus.destroyed }) d

  abbrev pub report_detected : Database → Database
  report_detected d =
      (with_uow (writes (orphan_event 0 "execution.environment.orphan_detected") >> commit) d).1

  abbrev pub report_recovered : Database → Database
  report_recovered d =
      (with_uow
        (writes (mark_destroyed found)
          >> (writes (orphan_event 1 "execution.environment.recovered") >> commit))
        d).1

  -- An orphan is reported, its directory is deleted, and its environment is DESTROYED.
  unfoldable pub clean_orphan : List String × Database → List String × Database
  clean_orphan (deleted, d) = (deleted ++ exec_path ∷ [], report_recovered (report_detected d))

  abbrev pub clean_if : Bool → List String × Database → List String × Database
  clean_if orphan state = if orphan then clean_orphan state else state

module _ (markers : Markers) where
  abbrev pub visit_marked :
      Ambient → String → Option (String × ℕ) → List String × Database → List String × Database
  visit_marked g exec_path none state = state
  visit_marked g exec_path (some (env_id_str, env_id)) state =
      let found = get_environment env_id state.1 in
      clean_if g exec_path env_id_str found (is_orphan found) state

  -- The directories from the k-th on, each with its own draws.
  unfoldable pub visit_all :
      (ℕ → Ambient) → ℕ → List WorktreeDirectory → List String × Database → List String × Database
  visit_all gs k [] state = state
  visit_all gs k (dir ∷ dirs) state =
      visit_all gs (k + 1) dirs (visit_marked (gs k) dir.exec_path (marked markers dir) state)

  -- `recover_orphans`: the paths that were deleted, and the database.
  unfoldable pub recover_orphans :
      (ℕ → Ambient) → List WorktreeDirectory → Database → List String × Database
  recover_orphans gs dirs d = visit_all gs 0 dirs ([], d)
