-- ===== src/Execution/Containment.antt =====
-- What `resolve_within_directory` promises: its result is inside the directory, whatever is asked for.
use aura_automated_user_rag.Base.{
  true, String, ◌≟◌, string_eq, Option, none, some, List, ◌++◌, ◌≡◌, inl, inr, refl, ap, subst,
  Bool-cases,
}
use mathlib.Core.Option
use aura_automated_user_rag.Execution.Paths.{
  PathFunctions, contains, target_of, within_real, within, resolve_within_directory,
}

-- `a` is `b` or a directory above it, by their components.
abbrev pub Above : (String → List String) → String → String → Type 0
Above components a b = (rest : List String) × (components b ≡ components a ++ rest)

-- The documentation of `os.path.commonpath`: it returns a path that both arguments are under.
abbrev pub IsCommon : PathFunctions → (String → List String) → Type 0
IsCommon paths components =
    (a b common : String)
    → paths.commonpath a b ≡ some common
    → Above components common a × Above components common b

module _ (paths : PathFunctions) (components : String → List String)
    (is_common : IsCommon paths components) where
  contains-Above :
      (base target : String) (common : Option String)
      → paths.commonpath base target ≡ common
      → contains paths base common ≡ true
      → Above components base target
  contains-Above base target none e h = absurd (cc)
  contains-Above base target (some common) e h =
      let same : common ≡ base = (string_eq.beq_iff common base).0 h in
      subst (λ p. Above components p target) same (is_common base target common e).1

  -- A path that is returned is the real path of the target, and is inside the real directory.
  abbrev pub Contained : String → String → String → Type 0
  Contained base_dir requested_path result =
      (base_real : String) × (paths.realpath (paths.abspath base_dir) ≡ some base_real)
      × (paths.realpath (target_of paths (paths.abspath base_dir) requested_path) ≡ some result)
      × Above components base_real result

  within_real-Above :
      (base target : Option String) (result : String)
      → within_real paths base target ≡ some result
      → (base_real : String) × (base ≡ some base_real)
        × (target ≡ some result)
        × Above components base_real result
  within_real-Above none target result h = absurd (cc)
  within_real-Above (some base) none result h = absurd (cc)
  within_real-Above (some base) (some target) result h =
      elim (Bool-cases (contains paths base (paths.commonpath base target))) [
        | inl inside ↦
            let same : target ≡ result = Option.some-injective target result (rw inside at h) in
            (
              base,
              refl,
              ap some same,
              subst (Above components base) same
                  (contains-Above base target (paths.commonpath base target) refl inside),
            )
        | inr outside ↦ let bad : none ≡ some result = rw outside at h in absurd (cc)
      ]

  within-Above :
      (base_abs target_abs result : String)
      → within paths base_abs target_abs ≡ some result
      → (base_real : String) × (paths.realpath base_abs ≡ some base_real)
        × (paths.realpath target_abs ≡ some result)
        × Above components base_real result
  within-Above base_abs target_abs result h =
      elim (Bool-cases (contains paths base_abs (paths.commonpath base_abs target_abs))) [
        | inl inside ↦
            within_real-Above (paths.realpath base_abs) (paths.realpath target_abs) result
              (rw inside at h)
        | inr outside ↦ let bad : none ≡ some result = rw outside at h in absurd (cc)
      ]

  -- If `commonpath` returns a path that both of its arguments are under, then a path that
  -- `resolve_within_directory` returns is the real path of what was asked for, and the real path
  -- of the directory is the path itself or a directory above it.
  pub resolve_within_directory-Contained :
      (base_dir requested_path result : String)
      → resolve_within_directory paths base_dir requested_path ≡ some result
      → Contained base_dir requested_path result
  unfolding resolve_within_directory
  resolve_within_directory-Contained base_dir requested_path result h =
      elim (Bool-cases (base_dir ≟ "")) [
        | inl empty ↦ let bad : none ≡ some result = rw empty at h in absurd (cc)
        | inr given ↦ elim (Bool-cases (requested_path ≟ "")) [
          | inl empty ↦ let bad : none ≡ some result = rw (given, empty) at h in absurd (cc)
          | inr asked ↦
              within-Above (paths.abspath base_dir)
                (target_of paths (paths.abspath base_dir) requested_path) result
                (rw (given, asked) at h)
        ]
      ]
