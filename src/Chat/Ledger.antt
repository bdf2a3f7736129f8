-- ===== src/Chat/Ledger.antt =====
-- openai_compatible.py: `_Ledger`, and the errors that carry it.
pub mod Charges
use agent_storm.Prelude.{
  ℕ, suc, ◌+◌, ◌≤◌, ◌<◌, String, Bool, true, false, not, ◌&&◌, ◌||◌, Option, none, some, List, [],
  ◌∷◌, ◌++◌, ◌≡◌, refl, ◌↔◌, ◌⊎◌, inl, inr, ◌==◌, ltb, leb, str_eq, if◌then◌else◌, arith, length,
  is_empty, keep, Dict, insert, update, map, Bool-cases,
}
use agent_storm.Prelude.Int.{pos}
use agent_storm.Models.{AdapterResponse, Value, Items}
use agent_storm.Models.Json
use agent_storm.Errors.{ExecutionError}

-- `rate_limit_events` holds the code of each retried 429.
pub record Ledger : Type 0 where
  pub model_calls : ℕ
  pub input_tokens : ℕ
  pub output_tokens : ℕ
  pub usage_known : Bool
  pub unknown_calls : ℕ
  pub rate_limit_events : List String

abbrev pub empty_ledger : Ledger
empty_ledger = record {
  model_calls = 0;
  input_tokens = 0;
  output_tokens = 0;
  usage_known = true;
  unknown_calls = 0;
  rate_limit_events = [];
}

-- `note_retryable`
unfoldable pub note_retryable : String → Ledger → Ledger
note_retryable code l = record l { rate_limit_events = l.rate_limit_events ++ code ∷ [] }

-- `add_usage`
unfoldable pub add_usage : Option (ℕ × ℕ) → Ledger → Ledger
add_usage none l = record l { usage_known = false }
add_usage (some (input, output)) l = record l {
  input_tokens = l.input_tokens + input;
  output_tokens = l.output_tokens + output;
}

-- `charge_unknown_call`
unfoldable pub charge_unknown_call : (input output : ℕ) → Ledger → Bool × Ledger
charge_unknown_call input output l =
    let counted = record l { unknown_calls = l.unknown_calls + 1 } in
    if not l.usage_known then (false, counted) else (
      true,
      record counted {
        input_tokens = l.input_tokens + input;
        output_tokens = l.output_tokens + output;
      },
    )

text_items : List String → Items
text_items [] = Json.nil
text_items (s ∷ texts) = Json.cons (Json.text s) (text_items texts)

-- The metadata of `response()`.
ledger_metadata : Ledger → Dict Value
unfolding text_items
ledger_metadata l =
    let codes = keep (λ c. not (str_eq c "")) l.rate_limit_events in
    let unknown =
      if l.unknown_calls == 0
      then []
      else ("agentstorm.usage.unknown_calls", Json.int (pos l.unknown_calls)) ∷ [] in
    let events =
      if is_empty l.rate_limit_events
      then []
      else ("agentstorm.provider.rate_limit_events", Json.int (pos (length l.rate_limit_events)))
        ∷ [] in
    let rate_codes =
      if is_empty codes
      then []
      else ("agentstorm.provider.rate_limit_codes", Json.array (text_items codes)) ∷ [] in
    unknown ++ (events ++ rate_codes)

-- `response()`
unfoldable pub ledger_response : String → Ledger → AdapterResponse
unfolding ledger_metadata
ledger_response output l = record {
  output = output;
  input_tokens = if l.usage_known then some l.input_tokens else none;
  output_tokens = if l.usage_known then some l.output_tokens else none;
  model_call_count = some l.model_calls;
  tool_call_count = none;
  metadata = ledger_metadata l;
}

-- `_error`, with a ledger.
unfoldable pub ledger_error :
    (category code failure_kind : String)
    → (ambiguous safe_to_retry usage_complete : Bool) → Dict Value
    → Ledger
    → ExecutionError
unfolding ledger_response
ledger_error category code failure_kind ambiguous safe_to_retry usage_complete metadata l =
    let response = ledger_response "" l in
    record {
      category = category;
      code = code;
      failure_kind = failure_kind;
      ambiguous = ambiguous;
      safe_to_retry = safe_to_retry;
      response = some (record response { metadata = update response.metadata metadata });
      injected_rule = "";
      injected_fault = "";
      usage_complete = usage_complete;
      circuit_events = [];
    }

-- `_priced_unknown`
unfoldable pub priced_unknown :
    (code failure_kind : String)
    → (input_allowance output_allowance : ℕ) → Dict Value
    → Ledger
    → ExecutionError × Ledger
priced_unknown code failure_kind input_allowance output_allowance metadata l =
    let (usage_complete, charged) = charge_unknown_call input_allowance output_allowance l in
    (ledger_error "provider" code failure_kind true false usage_complete metadata charged, charged)

plain_error :
    (code : String) → (safe_to_retry : Bool) → Dict Value → Ledger → ExecutionError × Ledger
plain_error code safe_to_retry metadata l =
    (ledger_error "provider" code "provider" false safe_to_retry l.usage_known metadata l, l)

-- `_status_error`, for a provider code that was already filtered.
unfoldable pub status_error :
    (status : ℕ)
    → (provider_code : String) → (input_allowance output_allowance : ℕ) → Ledger
    → ExecutionError × Ledger
unfolding priced_unknown plain_error
status_error status provider_code input_allowance output_allowance l =
    let metadata =
      if str_eq provider_code ""
      then []
      else ("agentstorm.provider.error_code", Json.text provider_code) ∷ [] in
    let priced = λ (code kind : String).
      priced_unknown code kind input_allowance output_allowance metadata l in
    if status == 429
    then plain_error "rate_limited" true metadata l
    else if status == 408
    then priced "timeout" "timeout"
    else if leb 300 status && ltb status 400
    then priced "http_redirect" "provider"
    else if leb 500 status && leb status 599
    then priced "http_5xx" "provider"
    else if leb 400 status && leb status 499
    then plain_error "http_4xx" false metadata l
    else priced "unknown_error" "provider"
