-- ===== src/Base/Texts.antt =====
-- What Python does with texts: `str` of a number, a slice from the front, and values by their truth.
use Prim.Native.Nat.{ℕ, zero, suc, ◌/◌, ◌%◌}
use Prim.Native.String.{String, ◌++◌ as append}
use mathlib.Core.Path.{◌≡◌, refl}
use mathlib.Core.List.{List, [], ◌∷◌}
use mathlib.Core.Option.{Option, none, some}
use aura_automated_user_rag.Base.Tests.{ltb, if◌then◌else◌}
use aura_automated_user_rag.Base.Equality.{◌≟◌, string_eq}

abbrev digit_from : ℕ → List String → String
digit_from n [] = ""
digit_from zero (d ∷ ds) = d
digit_from (suc n) (d ∷ ds) = digit_from n ds

abbrev pub digit : ℕ → String
digit n = digit_from n ("0" ∷ "1" ∷ "2" ∷ "3" ∷ "4" ∷ "5" ∷ "6" ∷ "7" ∷ "8" ∷ "9" ∷ [])

-- A number has at most as many digits as the fuel, which `decimal` sets to the number plus one.
abbrev pub decimal_from : ℕ → ℕ → String
decimal_from zero n = ""
decimal_from (suc fuel) n =
    let front = decimal_from fuel (n / 10) in
    if ltb n 10 then digit n else append front (digit (n % 10))

-- `str(n)`
abbrev pub decimal : ℕ → String
decimal n = decimal_from (suc n) n

-- `s[:n]`
abbrev pub prefix : ℕ → String → String
prefix zero s = ""
prefix (suc n) String.[] = ""
prefix (suc n) (String.◌∷◌ c s) = String.◌∷◌ c (prefix n s)

-- An optional text, where the source asks for its truth: an empty text counts as none.
abbrev pub nonempty : Option String → Option String
nonempty none = none
nonempty (some s) = if s ≟ "" then none else some s

decimal_runs : decimal 1_204 ≡ "1204"
decimal_runs = refl

-- `len(s)`
abbrev pub size : String → ℕ
size String.[] = 0
size (String.◌∷◌ c s) = suc (size s)

-- `sep.join(texts)`
abbrev pub join : String → List String → String
join sep [] = ""
join sep (s ∷ []) = s
join sep (s ∷ t ∷ rest) = append s (append sep (join sep (t ∷ rest)))
