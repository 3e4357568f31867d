-- ===== src/Base/Results.antt =====
-- The exceptions of the program, and results that may be one of them.
use mathlib.Core.Path.{◌≡◌, ap}
use mathlib.Core.Path.{refl}
use mathlib.Core.Logic.{◌⊎◌, inl, inr}
use Prim.Native.String.{String}

pub data Exception : Type 0 where
  invalid_mission_transition invalid_task_transition invalid_worker_transition : Exception
  invalid_agent_run_transition invalid_agent_task_transition : Exception
  dag_cycle_error dag_duplicate_error dag_self_dependency_error : Exception
  mission_not_found stale_ownership_error recursion_error assertion_error attribute_error :
      Exception
  integrity_error data_error : Exception
  value_error runtime_error : String → Exception

pub data Result {ℓ} (A : Type ℓ) : Type ℓ where
  ok : A → Result A
  raise : Exception → Result A

infixl 5 ◌>>=◌ ◌>>◌
abbrev pub ◌>>=◌ {ℓ κ} : {A : Type ℓ} {B : Type κ} → Result A → (A → Result B) → Result B
ok a >>= f = f a
raise e >>= f = raise e

abbrev pub ◌>>◌ {ℓ} : {B : Type ℓ} → Result (Unit {0}) → Result B → Result B
m >> k = m >>= λ _. k

-- The value of a result, and `d` where it was raised.
abbrev pub get_or {ℓ} : {A : Type ℓ} → Result A → A → A
get_or (ok a) d = a
get_or (raise e) d = d

pub ok-injective {ℓ} : {A : Type ℓ} {a b : A} → ok a ≡ ok b → a ≡ b
ok-injective {a} h = ap (λ r. get_or r a) h

pub result-cases {ℓ} :
    {A : Type ℓ} (r : Result A) → ((a : A) × (r ≡ ok a)) ⊎ ((e : Exception) × (r ≡ raise e))
result-cases (ok a) = inl (a, refl)
result-cases (raise e) = inr (e, refl)
