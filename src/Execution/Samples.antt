-- ===== src/Execution/Samples.antt =====
-- Paths without a tree: the root is above every other path.
use aura_automated_user_rag.Base.{
  true, String, ◌≟◌, string_eq, none, some, List, [], ◌∷◌, ◌≡◌, inl, inr, refl, subst, Bool-cases,
  if◌then◌else◌,
}
use mathlib.Core.Option
use aura_automated_user_rag.Execution.Paths.{PathFunctions, resolve_within_directory}
use aura_automated_user_rag.Execution.Containment.{
  IsCommon, Above, Contained, resolve_within_directory-Contained,
}

abbrev pub flat_paths : PathFunctions
flat_paths = record {
  abspath = λ p. p;
  isabs = λ _. true;
  join = λ a b. b;
  commonpath = λ a b. if a ≟ b then some a else some "/";
  realpath = some;
}

abbrev pub components : String → List String
components p = if p ≟ "/" then [] else p ∷ []

Above-refl : (p : String) → Above components p p
Above-refl p = elim (Bool-cases (p ≟ "/")) [
  | inl root ↦ ([], rw root refl)
  | inr other ↦ ([], rw other refl)
]

pub flat_is_common : IsCommon flat_paths components
flat_is_common a b common h = elim (Bool-cases (a ≟ b)) [
  | inl same ↦
      let e : a ≡ common = Option.some-injective a common (rw same at h) in
      let e' : a ≡ b = (string_eq.beq_iff a b).0 same in
      (
        subst (λ p. Above components p a) e (Above-refl a),
        subst (λ p. Above components p b) e (subst (λ p. Above components a p) e' (Above-refl a)),
      )
  | inr differ ↦
      let e : "/" ≡ common = Option.some-injective "/" common (rw differ at h) in
      (
        subst (λ p. Above components p a) e (components a, refl),
        subst (λ p. Above components p b) e (components b, refl),
      )
]

outside_refused : resolve_within_directory flat_paths "/work" "/other" ≡ none
unfolding resolve_within_directory
outside_refused = refl

resolve_within_directory-Contained_example :
    Contained flat_paths components flat_is_common "/work" "/work" "/work"
unfolding resolve_within_directory
resolve_within_directory-Contained_example =
    resolve_within_directory-Contained flat_paths components flat_is_common "/work" "/work" "/work"
      refl
