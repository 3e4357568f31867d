-- ===== src/Gateway/Files.antt =====
-- The tools that read and write files, and those that ask git.
use aura_automated_user_rag.Base.{
  ℕ, String, ◌≟◌, string_eq, Option, none, some, not, ltb, if◌then◌else◌, Result, ok, ◌>>=◌,
}
use aura_automated_user_rag.Domain.Events.{Metadata}
use aura_automated_user_rag.Domain.Agents.Tools.{Output, ToolResult, refused}
use aura_automated_user_rag.Execution.Paths.{PathFunctions, resolve_within_directory}
use aura_automated_user_rag.Gateway.{Host, GitOutcome, returned, caught}

-- `_validate_worktree_path`
unfoldable pub validate_worktree_path : PathFunctions → String → String → Option String
validate_worktree_path paths worktree_path requested_path =
    if worktree_path ≟ "" then none else resolve_within_directory paths worktree_path requested_path

-- 1 MB
abbrev pub max_size : ℕ
max_size = 1_048_576

-- A text as the output of a tool.
abbrev pub text_output : String → Output
text_output s = record { shown = s; truthy = not (s ≟ ""); entries = none }

module _ (host : Host) (worktree_path : String) where
  abbrev pub read_at : Option String → ToolResult
  read_at none = refused (some "File not found or access denied")
  read_at (some real_path) =
      if not (host.exists real_path)
      then refused (some "File not found or access denied")
      else if not (host.isfile real_path)
      then refused (some "Path is not a file")
      else if ltb max_size (host.getsize real_path)
      then refused (some "File too large")
      else caught host (λ content. returned (text_output content)) (host.read_text real_path)

  -- `_read_file`
  unfoldable pub read_file : Metadata → Result ToolResult
  read_file arguments = host.parse_path arguments >>= λ path.
      ok (read_at (validate_worktree_path host.paths worktree_path path))

  abbrev pub write_at : String → Option String → Result ToolResult
  write_at content none = ok (refused (some "Access denied - outside worktree"))
  write_at content (some real_path) = host.makedirs (host.dirname real_path) >>= λ _.
      if ltb max_size (host.encoded_length content)
      then ok (refused (some "Content too large"))
      else ok (
          caught host (λ _. returned (text_output "File written"))
            (host.write_text real_path content))

  -- `_write_file`
  unfoldable pub write_file : Metadata → Result ToolResult
  write_file arguments = host.parse_write arguments >>= λ input.
      write_at input.1 (validate_worktree_path host.paths worktree_path input.0)

  abbrev pub git_outcome : GitOutcome → ToolResult
  git_outcome outcome =
      if outcome.succeeded
      then returned (text_output outcome.stdout)
      else refused (some outcome.stderr)

  abbrev pub git_at : String → Option String → ToolResult
  git_at subcommand none = refused (some "Access denied")
  git_at subcommand (some real_path) = caught host git_outcome (host.git real_path subcommand)

  -- `_get_git_status` and `_get_git_diff`
  unfoldable pub ask_git : String → Metadata → Result ToolResult
  ask_git subcommand arguments = host.parse_git arguments >>= λ path.
      ok (git_at subcommand (validate_worktree_path host.paths worktree_path path))
