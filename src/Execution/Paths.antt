-- ===== src/Execution/Paths.antt =====
-- core/infrastructure/execution/paths.py: `resolve_within_directory`. The functions of `os.path` are
-- parameters; `commonpath` gives none where it raises ValueError, and `realpath` where it raises.
use aura_automated_user_rag.Base.{
  Bool, false, String, ◌≟◌, string_eq, Option, none, some, if◌then◌else◌,
}

pub record PathFunctions : Type 0 where
  pub abspath : String → String
  pub isabs : String → Bool
  pub join : String → String → String
  pub commonpath : String → String → Option String
  pub realpath : String → Option String

module _ (paths : PathFunctions) where
  -- `os.path.commonpath([base, target]) != base`, where an exception refuses too.
  abbrev pub contains : String → Option String → Bool
  contains base none = false
  contains base (some common) = common ≟ base

  abbrev pub target_of : String → String → String
  target_of base_abs requested_path =
      if paths.isabs requested_path
      then paths.abspath requested_path
      else paths.abspath (paths.join base_abs requested_path)

  abbrev pub within_real : Option String → Option String → Option String
  within_real none _ = none
  within_real (some _) none = none
  within_real (some base_real) (some target_real) =
      if contains base_real (paths.commonpath base_real target_real) then some target_real else none

  abbrev pub within : String → String → Option String
  within base_abs target_abs =
      if contains base_abs (paths.commonpath base_abs target_abs)
      then within_real (paths.realpath base_abs) (paths.realpath target_abs)
      else none

  -- `resolve_within_directory`
  unfoldable pub resolve_within_directory : String → String → Option String
  resolve_within_directory base_dir requested_path =
      if base_dir ≟ ""
      then none
      else if requested_path ≟ ""
      then none
      else within (paths.abspath base_dir) (target_of (paths.abspath base_dir) requested_path)
