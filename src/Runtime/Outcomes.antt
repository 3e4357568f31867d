-- ===== src/Runtime/Outcomes.antt =====
-- What a round leads to, and what the loop asks of the results of tools and of the calls so far.
use aura_automated_user_rag.Base.{
  ℕ, zero, suc, Bool, true, false, String, ◌≟◌, string_eq, ltb, ◌-◌, ℤ, ◌||◌, not, Option, none,
  some, List, [], ◌∷◌, length, Result, ok, raise, attribute_error,
}
use aura_automated_user_rag.Domain.Events.{
  Value, Metadata, lookup, text, ident, count, integer, flag, null, json,
}
use aura_automated_user_rag.Domain.Agents.Runs.{AgentRun, agent_run_status_eq}
use aura_automated_user_rag.Domain.Agents.Tools.{
  ToolCall, ToolCallStatus, tool_call_status_eq, Output,
}
use aura_automated_user_rag.Store.{Database}

-- What a round leads to: the run has ended, or it goes on with a number of failures in a row.
pub data Progress : Type 0 where
  ended : AgentRun → Progress
  going : AgentRun → ℕ → Progress

abbrev pub as_ended : Result AgentRun × Database → Result Progress × Database
as_ended (ok run, d) = (ok (ended run), d)
as_ended (raise e, d) = (raise e, d)

-- The truth of `metadata.get(key)`, with the default where the key is missing.
abbrev pub truth : Bool → Option Value → Bool
truth default none = default
truth default (some (text s)) = not (s ≟ "")
truth default (some (ident _)) = true
truth default (some (count n)) = ltb 0 n
truth default (some (integer (ℤ.pos n))) = ltb 0 n
truth default (some (integer (ℤ.negsuc _))) = true
truth default (some (flag b)) = b
truth default (some null) = false
truth default (some (json s)) = not ((s ≟ "[]") || (s ≟ "{}"))

-- `tool_result.output.get("summary", "Task failed")`. A summary that is not a text is refused here
-- like an output that is no dictionary: FINISH_TASK, which alone asks for it, gives a text.
abbrev pub summary_text : Option Value → Result String
summary_text none = ok "Task failed"
summary_text (some (text s)) = ok s
summary_text (some _) = raise attribute_error

abbrev pub summary_in : Option Metadata → Result String
summary_in none = raise attribute_error
summary_in (some entries) = summary_text (lookup "summary" entries)

abbrev pub failure_summary : Option Output → Result String
failure_summary none = raise attribute_error
failure_summary (some output) = summary_in output.entries

-- The calls that are shown to the model: the last ten that are over.
abbrev pub is_over : ToolCall → Bool
is_over call = (call.status ≟ ToolCallStatus.completed) || (call.status ≟ ToolCallStatus.failed)

abbrev pub drop {ℓ} : {A : Type ℓ} → ℕ → List A → List A
drop zero xs = xs
drop (suc n) [] = []
drop (suc n) (x ∷ xs) = drop n xs

abbrev pub last {ℓ} : {A : Type ℓ} → ℕ → List A → List A
last n xs = drop (length xs - n) xs
