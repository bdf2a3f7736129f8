-- ===== src/Runner/Attempt.antt =====
-- runner.py: `_invoke_attempt`. What the world decides is an `Invocation`; telemetry is left out.
pub mod Accounts
pub mod Answered
use agent_storm.Prelude.{
  ℕ, ◌+◌, String, Bool, true, false, not, ◌&&◌, ◌||◌, Option, none, some, List, [], ◌∷◌, ◌≡◌, ◌==◌,
  str_eq, has_text, if◌then◌else◌, Dict, lookup, is_empty, is_some, length, take,
}
use agent_storm.Models.{AdapterResponse, Value}
use agent_storm.Models.Json
use agent_storm.Errors.{
  ExecutionError, Raised, Installed, Class, timeout_error, ambiguous_error,
  classify_adapter_exception,
}
use agent_storm.Config.{ReliabilityConfig, FaultScenarioConfig}
use agent_storm.Adapters.{Outcome, answered, raised, AdapterRun, raise_error}
use agent_storm.Faults.{run_with_faults}
use agent_storm.Retry.{Decision, not_needed}
use agent_storm.Runner.Records.{AttemptResult, AttemptOutcome, succeeded, failed}
use agent_storm.Runner.Metadata.{provider_token, attempt_provider_code, rate_limit_events}

-- How entering `DistributedLimiter.permit` ends: `stopped` is a `CancelledError`.
pub data Permit : Type 0 where
  admitted stopped : Permit
  refused : ExecutionError → Permit

-- How `asyncio.wait_for` may cut the call short.
pub data Interrupt : Type 0 where
  timed_out cancelled : Interrupt

pub record Invocation : Type 0 where
  pub permit : Permit
  pub run : AdapterRun
  pub interrupt : Option Interrupt
  -- the tools that had started when the call was cut short
  pub recorded : ℕ
  pub duration : ℕ

-- What does not change between the attempts of a run.
pub record Setup : Type 0 where
  pub digest_number : String → ℕ
  pub python_str : Value → String
  pub installed : Installed
  pub limited : Bool
  pub scenario : Option FaultScenarioConfig
  pub seed : Option ℕ

-- `TimeoutError` of `wait_for`.
wait_timeout : Raised
wait_timeout = record {
  as_execution_error = none;
  is_instance = elim [ timeout_error ↦ true | _ ↦ false ];
  status_code = 0;
}

-- The awaited call under its timeout; `none` is a `CancelledError`.
cut_short : Option Interrupt → ℕ → Outcome × List String → Option (Outcome × List String)
unfolding wait_timeout
cut_short none recorded result = some result
cut_short (some timed_out) recorded (outcome, tools) =
    some (raised wait_timeout, take recorded tools)
cut_short (some cancelled) recorded result = none

guarded : Permit → Option (Outcome × List String) → Option (Outcome × List String)
guarded admitted result = result
guarded stopped result = none
guarded (refused error) result = some (raised (raise_error error), [])

call_adapter :
    Setup → String → ℕ → ℕ → (remaining : ℕ) → Invocation → Option (Outcome × List String)
unfolding cut_short guarded
call_adapter setup case_id iteration attempt_number remaining inv =
    let result = cut_short inv.interrupt inv.recorded (
      run_with_faults setup.digest_number setup.scenario setup.seed case_id iteration attempt_number
        inv.run) in
    if remaining == 0
    then some (raised (raise_error (ambiguous_error "provider" "timeout" "timeout")), [])
    else if setup.limited
    then guarded inv.permit result
    else result

response_of : Installed → Outcome → Option AdapterResponse
response_of installed (answered response) = some response
response_of installed (raised exc) = (classify_adapter_exception installed exc).response

error_of : Installed → Outcome → Option ExecutionError
error_of installed (answered response) = none
error_of installed (raised exc) = some (classify_adapter_exception installed exc)

attempt_usage_complete : Option AdapterResponse → Option ExecutionError → Bool
attempt_usage_complete response (some error) = error.usage_complete
attempt_usage_complete none none = false
attempt_usage_complete (some response) none =
    is_some response.input_tokens && is_some response.output_tokens

attempt_tokens : Option (Option ℕ) → Bool → Option ℕ
attempt_tokens (some tokens) usage_complete = tokens
attempt_tokens none true = some 0
attempt_tokens none false = none

metadata_text : (Value → String) → Option Value → String
metadata_text python_str none = ""
metadata_text python_str (some (Json.text s)) = s
metadata_text python_str (some value) = python_str value

injected_text :
    (Value → String)
    → (ExecutionError → String)
    → (key : String) → Option AdapterResponse
    → Option ExecutionError
    → String
unfolding metadata_text
injected_text python_str of_error key response (some error) = of_error error
injected_text python_str of_error key none none = ""
injected_text python_str of_error key (some response) none =
    metadata_text python_str (lookup key response.metadata)

attempt_model_calls : Option AdapterResponse → (injected_fault : String) → Option ℕ
attempt_model_calls (some response) injected_fault = response.model_call_count
attempt_model_calls none injected_fault =
    if has_text injected_fault ("timeout" ∷ "rate_limit" ∷ "http_error" ∷ []) then some 0 else none

reported_tool_calls : Option AdapterResponse → ℕ
reported_tool_calls none = 0
reported_tool_calls (some response) = elim response.tool_call_count [ none ↦ 0 | some n ↦ n ]

attempt_tool_calls : List String → Option AdapterResponse → ℕ
unfolding reported_tool_calls
attempt_tool_calls tools response =
    if is_empty tools then reported_tool_calls response else length tools

abbrev pub of_error {ℓ} : {A : Type ℓ} → (ExecutionError → A) → A → Option ExecutionError → A
of_error f default none = default
of_error f default (some error) = f error

abbrev pub of_response {ℓ} :
    {A : Type ℓ} → (AdapterResponse → A) → Option AdapterResponse → Option A
of_response f none = none
of_response f (some response) = some (f response)

-- The `AttemptResult` of an attempt, before the retry decision.
build_attempt :
    (Value → String)
    → ℕ
    → ℕ
    → Option AdapterResponse
    → Option ExecutionError
    → List String
    → AttemptResult
unfolding attempt_usage_complete attempt_tokens injected_text attempt_model_calls attempt_tool_calls
build_attempt python_str number latency response error tools =
    let usage_complete = attempt_usage_complete response error in
    let injected_fault =
      injected_text python_str (λ e. e.injected_fault) "agentstorm.injected_fault" response error in
    let metadata = of_response (λ r. r.metadata) response in
    record {
      number = number;
      latency = latency;
      outcome = if is_some error then failed else succeeded;
      failure_category = of_error (λ e. e.category) "" error;
      error_code = of_error (λ e. e.code) "" error;
      injected_rule =
          injected_text python_str (λ e. e.injected_rule) "agentstorm.injected_rule" response error;
      injected_fault = injected_fault;
      ambiguous = of_error (λ e. e.ambiguous) false error;
      retry_decision = not_needed;
      backoff_ms = 0;
      input_tokens = attempt_tokens (of_response (λ r. r.input_tokens) response) usage_complete;
      output_tokens = attempt_tokens (of_response (λ r. r.output_tokens) response) usage_complete;
      usage_complete = usage_complete;
      model_call_count = attempt_model_calls response injected_fault;
      tool_call_count = attempt_tool_calls tools response;
      circuit_events = of_error (λ e. e.circuit_events) [] error;
      provider_error_code = attempt_provider_code metadata;
      rate_limit_events = rate_limit_events metadata;
      finish_reason = elim metadata [
        | none ↦ ""
        | some m ↦ provider_token (lookup "agentstorm.provider.finish_reason" m)
      ];
    }

-- What `_invoke_attempt` returns.
pub record Tried : Type 0 where
  pub response : Option AdapterResponse
  pub error : Option ExecutionError
  pub attempt : AttemptResult
  pub tools : List String

finish_attempt : Setup → ℕ → ℕ → Option (Outcome × List String) → Option Tried
unfolding response_of error_of build_attempt
finish_attempt setup number duration none = none
finish_attempt setup number duration (some (outcome, tools)) =
    let response = response_of setup.installed outcome in
    let error = error_of setup.installed outcome in
    some (record {
      response = response;
      error = error;
      attempt = build_attempt setup.python_str number duration response error tools;
      tools = tools;
    })

-- `_invoke_attempt`; `none` is a `CancelledError`.
unfoldable pub invoke_attempt : Setup → String → ℕ → ℕ → (remaining : ℕ) → Invocation → Option Tried
unfolding call_adapter finish_attempt
invoke_attempt setup case_id iteration attempt_number remaining inv =
    finish_attempt setup attempt_number inv.duration
      (call_adapter setup case_id iteration attempt_number remaining inv)
