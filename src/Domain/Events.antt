-- ===== src/Domain/Events.antt =====
-- core/domain/events/entities.py, and the values that an operation draws from outside: the
-- identifiers of `uuid4()` and the readings of `utc_now()`.
use aura_automated_user_rag.Base.{
  ℕ, ◌+◌, ℤ, Bool, String, Option, none, some, List, [], ◌∷◌, ◌≟◌, string_eq, if◌then◌else◌,
}

-- `uuid k` is the k-th identifier and `now k` the k-th reading of the clock in an operation.
pub record Ambient : Type 0 where
  pub uuid : ℕ → ℕ
  pub now : ℕ → ℕ

-- What is left for the rest of an operation after `n` draws of each kind.
abbrev pub shift : ℕ → Ambient → Ambient
shift n g = record { uuid = λ k. g.uuid (k + n); now = λ k. g.now (k + n) }

-- The values of a dictionary; `ident` is the text of an identifier, `json` a list or a dictionary, by
-- its text.
pub data Value : Type 0 where
  text : String → Value
  ident : ℕ → Value
  count : ℕ → Value
  integer : ℤ → Value
  flag : Bool → Value
  null : Value
  json : String → Value

abbrev pub Metadata : Type 0
Metadata = List (String × Value)

-- `metadata[key] = v`: a key keeps its place.
unfoldable pub put : String → Value → Metadata → Metadata
put key v [] = (key, v) ∷ []
put key v ((k, old) ∷ rest) =
    let more = put key v rest in if k ≟ key then (key, v) ∷ rest else (k, old) ∷ more

pub record Event : Type 0 where
  pub id : ℕ
  pub event_type : String
  pub mission_id : ℕ
  pub task_id : Option ℕ
  pub agent_id : Option ℕ
  pub timestamp : ℕ
  pub metadata : Metadata

-- `Event(event_type=…, mission_id=…, task_id=…, agent_id=…, metadata=…)` at the k-th draw.
abbrev pub new_event : Ambient → ℕ → String → ℕ → Option ℕ → Option ℕ → Metadata → Event
new_event g k event_type mission_id task_id agent_id metadata = record {
  id = g.uuid k;
  event_type = event_type;
  mission_id = mission_id;
  task_id = task_id;
  agent_id = agent_id;
  timestamp = g.now k;
  metadata = metadata;
}

-- `metadata.get(key)`
abbrev pub lookup : String → Metadata → Option Value
lookup key [] = none
lookup key ((k, v) ∷ rest) = if k ≟ key then some v else lookup key rest

-- `str` or `None` as a value of a dictionary.
abbrev pub text_or_null : Option String → Value
text_or_null none = null
text_or_null (some s) = text s
