-- ===== src/Errors.antt =====
-- worker/src/agentstorm_worker/execution_errors.py.
-- An exception is its answers to the `isinstance` tests that the code makes.
pub mod Safety
use agent_storm.Prelude.{
  ℕ, String, Bool, true, false, Option, none, some, List, [], ◌∷◌, ◌≡◌, refl, ◌==◌, leb, ◌⊎◌,
  if◌then◌else◌, arith,
}
use agent_storm.Models.{AdapterResponse}

-- `ExecutionError`. Category, code and kind are texts: a plugin may raise any.
pub record ExecutionError : Type 0 where
  pub category : String
  pub code : String
  pub failure_kind : String
  pub ambiguous : Bool
  pub safe_to_retry : Bool
  pub response : Option AdapterResponse
  pub injected_rule : String
  pub injected_fault : String
  pub usage_complete : Bool
  pub circuit_events : List String

-- `ExecutionError(category, code, failure_kind)` with the defaults of `__init__`.
abbrev pub execution_error : (category code failure_kind : String) → ExecutionError
execution_error category code failure_kind = record {
  category = category;
  code = code;
  failure_kind = failure_kind;
  ambiguous = false;
  safe_to_retry = false;
  response = none;
  injected_rule = "";
  injected_fault = "";
  usage_complete = false;
  circuit_events = [];
}

abbrev pub ambiguous_error : (category code failure_kind : String) → ExecutionError
ambiguous_error category code failure_kind = record (execution_error category code failure_kind) {
  ambiguous = true;
}

abbrev pub rate_limited : ExecutionError
rate_limited = record (execution_error "provider" "rate_limited" "provider") {
  safe_to_retry = true;
}

-- The exception classes that are tested for.
pub data Class : Type 0 where
  timeout_error : Class
  tool_timeout_error input_guardrail output_guardrail max_turns_exceeded : Class
  model_behavior_error user_error agents_exception : Class
  rate_limit_error api_timeout_error api_connection_error api_status_error : Class

pub record Raised : Type 0 where
  pub as_execution_error : Option ExecutionError
  pub is_instance : Class → Bool
  pub status_code : ℕ

-- Which of the optional packages `agents` and `openai` can be imported.
pub record Installed : Type 0 where
  pub agents : Bool
  pub openai : Bool

-- `_classify_agents_exception`
unfoldable pub classify_agents_exception : Bool → Raised → Option ExecutionError
classify_agents_exception false exc = none
classify_agents_exception true exc =
    if exc.is_instance tool_timeout_error
    then some (ambiguous_error "tool" "tool_timeout" "tool")
    else if exc.is_instance input_guardrail
    then some (execution_error "evaluation" "input_guardrail_tripwire" "assertion")
    else if exc.is_instance output_guardrail
    then some (execution_error "evaluation" "output_guardrail_tripwire" "assertion")
    else if exc.is_instance max_turns_exceeded
    then some (execution_error "evaluation" "max_turns_exceeded" "assertion")
    else if exc.is_instance model_behavior_error
    then some (ambiguous_error "provider" "model_behavior" "provider")
    else if exc.is_instance user_error
    then some (execution_error "harness" "sdk_user_error" "harness")
    else if exc.is_instance agents_exception
    then some (ambiguous_error "provider" "agents_error" "provider")
    else none

classify_status : ℕ → ExecutionError
classify_status status_code =
    if status_code == 429
    then rate_limited
    else if leb 500 status_code
    then ambiguous_error "provider" "http_5xx" "provider"
    else execution_error "provider" "http_4xx" "provider"

-- `_classify_openai_exception`
unfoldable pub classify_openai_exception : Bool → Raised → Option ExecutionError
unfolding classify_status
classify_openai_exception false exc = none
classify_openai_exception true exc =
    if exc.is_instance rate_limit_error
    then some rate_limited
    else if exc.is_instance api_timeout_error
    then some (ambiguous_error "provider" "timeout" "timeout")
    else if exc.is_instance api_connection_error
    then some (ambiguous_error "provider" "connection_error" "provider")
    else if exc.is_instance api_status_error
    then some (classify_status exc.status_code)
    else none

classify_unmapped : Option ExecutionError → Option ExecutionError → ExecutionError
classify_unmapped (some error) _ = error
classify_unmapped none (some error) = error
classify_unmapped none none = ambiguous_error "provider" "unknown_error" "provider"

classify_foreign : Installed → Raised → ExecutionError
unfolding classify_unmapped classify_agents_exception classify_openai_exception
classify_foreign installed exc =
    if exc.is_instance timeout_error
    then ambiguous_error "provider" "timeout" "timeout"
    else classify_unmapped (classify_agents_exception installed.agents exc)
        (classify_openai_exception installed.openai exc)

classify_by : Installed → Raised → Option ExecutionError → ExecutionError
unfolding classify_foreign
classify_by installed exc (some error) = error
classify_by installed exc none = classify_foreign installed exc

-- `classify_adapter_exception`
unfoldable pub classify_adapter_exception : Installed → Raised → ExecutionError
unfolding classify_by
classify_adapter_exception installed exc = classify_by installed exc exc.as_execution_error
