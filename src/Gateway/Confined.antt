-- ===== src/Gateway/Confined.antt =====
-- core/application/tool_gateway.py: `_read_file` and `_write_file` on two file systems.
use aura_automated_user_rag.Base.{
  ℕ, Bool, String, ◌≟◌, string_eq, Option, none, some, List, [], ◌∷◌, ◌++◌, ◌≡◌, inl, inr, refl, ap,
  ◌∙◌, Bool-cases, result-cases, Result, ok,
}
use mathlib.Core.List.{append-nil}
use aura_automated_user_rag.Domain.Events.{Metadata}
use aura_automated_user_rag.Execution.Containment.{
  Above, IsCommon, resolve_within_directory-Contained,
}
use aura_automated_user_rag.Gateway.{Host}
use aura_automated_user_rag.Gateway.Files.{
  validate_worktree_path, read_at, read_file, write_at, write_file,
}

-- A file system: what the tools ask of it and do to it.
pub record FileSystem : Type 0 where
  pub exists : String → Bool
  pub isfile : String → Bool
  pub getsize : String → ℕ
  pub read_text : String → Result String
  pub makedirs : String → Result (Unit {0})
  pub write_text : String → String → Result (Unit {0})

-- The host on another file system.
abbrev pub on : Host → FileSystem → Host
on host fs = record host {
  exists = fs.exists;
  isfile = fs.isfile;
  getsize = fs.getsize;
  read_text = fs.read_text;
  makedirs = fs.makedirs;
  write_text = fs.write_text;
}

-- Two file systems that behave alike at a path.
pub record Alike (a b : FileSystem) (p : String) : Type 0 where
  pub same_exists : a.exists p ≡ b.exists p
  pub same_isfile : a.isfile p ≡ b.isfile p
  pub same_getsize : a.getsize p ≡ b.getsize p
  pub same_read : a.read_text p ≡ b.read_text p
  pub same_makedirs : a.makedirs p ≡ b.makedirs p
  pub same_write : (content : String) → a.write_text p content ≡ b.write_text p content

-- `dirname` takes off a component of a path that has one below some directory, and is under that
-- directory then.
abbrev pub IsDirname : (String → String) → (String → List String) → Type 0
IsDirname dirname components =
    (p base x : String) (rest : List String)
    → components p ≡ components base ++ x ∷ rest
    → Above components base (dirname p)

module _ (host : Host) (components : String → List String)
    (is_common : IsCommon host.paths components) (is_dirname : IsDirname host.dirname components)
    (worktree_path : String) where
  -- A path under the real path of the worktree.
  abbrev pub Inside : String → Type 0
  Inside p =
      (base_real : String) × (host.paths.realpath (host.paths.abspath worktree_path)
        ≡ some base_real)
      × Above components base_real p

  validate-Inside :
      (requested_path p : String)
      → validate_worktree_path host.paths worktree_path requested_path ≡ some p
      → Inside p
  unfolding validate_worktree_path
  validate-Inside requested_path p h = elim (Bool-cases (worktree_path ≟ "")) [
    | inl empty ↦ let bad : none ≡ some p = rw empty at h in absurd (cc)
    | inr given ↦
        let (base, is_base, _, above) =
          resolve_within_directory-Contained host.paths components is_common worktree_path
            requested_path p (rw given at h) in
        (base, is_base, above)
  ]

  -- Two file systems make the directory above the worktree itself alike: `os.makedirs` is asked for it
  -- where the path to write is the worktree.
  abbrev pub AlikeAbove : FileSystem → FileSystem → Type 0
  AlikeAbove a b =
      (base_real p : String)
      → host.paths.realpath (host.paths.abspath worktree_path) ≡ some base_real
      → components p ≡ components base_real
      → a.makedirs (host.dirname p) ≡ b.makedirs (host.dirname p)

  module _ (a b : FileSystem) (alike : (p : String) → Inside p → Alike a b p)
      (above_alike : AlikeAbove a b) where
    -- The directory above a path of the worktree is in the worktree, or above the worktree itself.
    makedirs-same :
        (p : String) → Inside p → a.makedirs (host.dirname p) ≡ b.makedirs (host.dirname p)
    makedirs-same p (base, is_base, ([], split)) =
        above_alike base p is_base (split ∙ append-nil (components base))
    makedirs-same p (base, is_base, (x ∷ rest, split)) =
        (alike (host.dirname p) (base, is_base, is_dirname p base x rest split)).same_makedirs

    read_at-same :
        (p : Option String)
        → ((q : String) → p ≡ some q → Alike a b q)
        → read_at (on host a) worktree_path p ≡ read_at (on host b) worktree_path p
    read_at-same none same = refl
    read_at-same (some p) same =
        let s = same p refl in rw (s.same_exists, s.same_isfile, s.same_getsize, s.same_read) refl

    write_at-same :
        (content : String) (p : Option String)
        → ((q : String) → p ≡ some q → Inside q)
        → write_at (on host a) worktree_path content p
          ≡ write_at (on host b) worktree_path content p
    write_at-same content none same = refl
    write_at-same content (some p) inside =
        rw (makedirs-same p (inside p refl), (alike p (inside p refl)).same_write content) refl

    -- If `commonpath` returns a path that both of its arguments are under, and `dirname` leaves no
    -- directory that its argument is below, then `_read_file` and `_write_file` give the same on any two
    -- file systems that behave alike under the worktree and make the directory above it alike.
    pub files-Confined :
        (arguments : Metadata)
        → (read_file (on host a) worktree_path arguments
            ≡ read_file (on host b) worktree_path arguments)
          × (write_file (on host a) worktree_path arguments
              ≡ write_file (on host b) worktree_path arguments)
    unfolding read_file write_file
    files-Confined arguments = (
      elim (result-cases (host.parse_path arguments)) [
        | inr (e, h) ↦ rw h refl
        | inl (path, h) ↦ rw h (
            ap ok (
              read_at-same (validate_worktree_path host.paths worktree_path path)
                (λ q v. alike q (validate-Inside path q v))))
      ],
      elim (result-cases (host.parse_write arguments)) [
        | inr (e, h) ↦ rw h refl
        | inl (input, h) ↦ rw h (
            write_at-same input.1 (validate_worktree_path host.paths worktree_path input.0)
              (λ q v. validate-Inside input.0 q v))
      ],
    )
