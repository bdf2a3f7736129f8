-- ===== src/Runner/Finish.antt =====
-- runner.py: what follows the attempts in `_execute_permitted_case`, `_failed_result`, and
-- `_execute_case`. `evaluate` is the evaluators' call; `meanwhile` is what the other cases do to the
-- shared breaker while this one runs.
pub mod Results
pub mod Judged
use agent_storm.Prelude.{
  ℕ, zero, suc, ◌+◌, ◌-◌, ◌*◌, String, Bool, true, false, not, ◌&&◌, ◌||◌, Option, none, some, List,
  [], ◌∷◌, ◌++◌, ◌==◌, ltb, leb, if◌then◌else◌, is_some, is_empty, concat, all_of, keep, map,
}
use agent_storm.Models.{AdapterResponse, AssertionOutcome}
use agent_storm.Config.{
  RetryConfig, PricingConfig, CircuitBreakerConfig, ReliabilityConfig, RunConfig,
}
use agent_storm.Errors.{ExecutionError, execution_error}
use agent_storm.Retry.{not_retryable}
use agent_storm.Circuit.{CircuitPermit, CircuitBreaker, Acquired, granted, acquire, record_terminal}
use agent_storm.Circuit
use agent_storm.Pricing.{Costs}
use agent_storm.Runner.Records.{AttemptResult, CaseResult}
use agent_storm.Runner.Records
use agent_storm.Runner.Attempt.{Setup}
use agent_storm.Runner.Usage.{attempt_usage, attempt_calls, costs_for_usage, case_provider_fields}
use agent_storm.Runner.Case.{Reading, End, Loop, exhausted, cancelled, ended, attempt_loop}

-- `attempts[-1].circuit_events.extend(events)`
unfoldable pub extend_last : List String → List AttemptResult → List AttemptResult
extend_last events [] = []
extend_last events (a ∷ []) = record a { circuit_events = a.circuit_events ++ events } ∷ []
extend_last events (a ∷ b ∷ attempts) = a ∷ extend_last events (b ∷ attempts)

-- `", ".join(texts)`
join_comma : List String → String
join_comma [] = ""
join_comma (s ∷ []) = s
join_comma (s ∷ t ∷ rest) = concat s (concat ", " (join_comma (t ∷ rest)))

abbrev no_outcomes : List AssertionOutcome
no_outcomes = []

failed_by : String → ℕ → ExecutionError → List AttemptResult → List String → ℕ → Costs → CaseResult
failed_by case_id iteration error attempts tools latency costs =
    let usage = attempt_usage attempts in
    let (model_calls, tool_calls) = attempt_calls attempts in
    let (code, in_call_retries) = case_provider_fields attempts in
    record {
      case_id = case_id;
      iteration = iteration;
      success = false;
      latency = latency;
      failure_kind = error.failure_kind;
      failure_category = error.category;
      error_code = error.code;
      attempts = attempts;
      usage_complete = usage.usage_complete;
      output = "";
      error = some (concat error.category (concat "/" error.code));
      input_tokens = usage.input_tokens;
      output_tokens = usage.output_tokens;
      model_call_count = model_calls;
      tool_call_count = tool_calls;
      tool_path = tools;
      assertions = no_outcomes;
      input_cost = costs.input_cost;
      output_cost = costs.output_cost;
      total_cost = costs.total_cost;
      provider_error_code = code;
      in_call_retry_count = in_call_retries;
    }

judged_by :
    String
    → ℕ
    → (output : String) → List AssertionOutcome
    → List AttemptResult
    → List String
    → ℕ
    → Costs
    → CaseResult
unfolding join_comma
judged_by case_id iteration output outcomes attempts tools latency costs =
    let success = all_of (λ o. o.passed) outcomes in
    let usage = attempt_usage attempts in
    let (model_calls, tool_calls) = attempt_calls attempts in
    let (code, in_call_retries) = case_provider_fields attempts in
    record {
      case_id = case_id;
      iteration = iteration;
      success = success;
      latency = latency;
      failure_kind = if success then "" else "assertion";
      failure_category = if success then "" else "evaluation";
      error_code = if success then "" else "assertion_failed";
      attempts = attempts;
      usage_complete = usage.usage_complete;
      output = output;
      error =
          if success
          then none
          else some (
              concat "failed assertions: "
                (join_comma (map (λ o. o.type) (keep (λ o. not o.passed) outcomes))));
      input_tokens = usage.input_tokens;
      output_tokens = usage.output_tokens;
      model_call_count = model_calls;
      tool_call_count = tool_calls;
      tool_path = tools;
      assertions = outcomes;
      input_cost = costs.input_cost;
      output_cost = costs.output_cost;
      total_cost = costs.total_cost;
      provider_error_code = code;
      in_call_retry_count = in_call_retries;
    }

-- How a case ends; `crashed` is an exception that leaves `_execute_case`.
pub data CaseEnd : Type 0 where
  case_exhausted case_cancelled case_crashed : CaseEnd
  completed : CaseResult → CaseEnd

priced : Option Costs → (Costs → CaseResult) → CaseEnd
priced none result = case_crashed
priced (some costs) result = completed (result costs)

-- `_failed_result`
unfoldable pub failed_result :
    Option PricingConfig
    → String
    → ℕ
    → ExecutionError
    → List AttemptResult
    → List String
    → ℕ
    → CaseEnd
unfolding priced failed_by
failed_result pricing case_id iteration error attempts tools latency =
    priced (costs_for_usage pricing (attempt_usage attempts))
      (failed_by case_id iteration error attempts tools latency)

-- What the outcomes of the assertions make of the case; `none` is an exception of the evaluators.
judge_outcomes :
    Option PricingConfig
    → String
    → ℕ
    → (output : String) → Option (List AssertionOutcome)
    → List AttemptResult
    → List String
    → ℕ
    → CaseEnd
unfolding failed_result priced judged_by
judge_outcomes pricing case_id iteration output none attempts tools latency =
    failed_result pricing case_id iteration
      (execution_error "harness" "evaluator_failure" "harness") attempts tools latency
judge_outcomes pricing case_id iteration output (some outcomes) attempts tools latency =
    priced (costs_for_usage pricing (attempt_usage attempts))
      (judged_by case_id iteration output outcomes attempts tools latency)

-- The end of `_execute_permitted_case`. Without an error and without a response its `assert` fails.
judge :
    Option PricingConfig
    → String
    → ℕ
    → (AdapterResponse → List String → ℕ → Option (List AssertionOutcome))
    → Option ExecutionError
    → Option AdapterResponse
    → (provider_latency : ℕ) → List AttemptResult
    → List String
    → ℕ
    → CaseEnd
unfolding judge_outcomes
judge pricing case_id iteration evaluate (some error) response provider_latency attempts tools
      latency =
    failed_result pricing case_id iteration error attempts tools latency
judge pricing case_id iteration evaluate none none provider_latency attempts tools latency =
    case_crashed
judge pricing case_id iteration evaluate none (some response) provider_latency attempts tools
      latency =
    judge_outcomes pricing case_id iteration response.output
      (evaluate response tools provider_latency) attempts tools latency

-- The attempt of a case that the open breaker turned away.
rejected_attempt : ExecutionError → AttemptResult
rejected_attempt error = record {
  number = 1;
  latency = 0;
  outcome = Records.rejected;
  failure_category = error.category;
  error_code = error.code;
  injected_rule = "";
  injected_fault = "";
  ambiguous = false;
  retry_decision = not_retryable;
  backoff_ms = 0;
  input_tokens = some 0;
  output_tokens = some 0;
  usage_complete = true;
  model_call_count = some 0;
  tool_call_count = 0;
  circuit_events = error.circuit_events;
  provider_error_code = "";
  rate_limit_events = 0;
  finish_reason = "";
}

-- The clock readings of a case: at its start, when it records its end, and when that is done.
pub record Times : Type 0 where
  pub case_started : ℕ
  pub at_acquire : ℕ
  pub at_record : ℕ
  pub at_end : ℕ

-- `reliability.retry` and so on, `None` where there is no reliability section.
abbrev pub section {ℓ} : {A : Type ℓ} → (ReliabilityConfig → Option A) → RunConfig → Option A
section f config = elim config.reliability [ none ↦ none | some r ↦ f r ]

module _ (setup : Setup) (config : RunConfig) (case_id : String) (iteration : ℕ)
    (evaluate : AdapterResponse → List String → ℕ → Option (List AssertionOutcome))
    (times : Times) where
  -- What follows the loop, on the breaker that is then found.
  finish_case : CircuitPermit → Loop → CircuitBreaker → CaseEnd × CircuitBreaker
  unfolding judge extend_last
  finish_case permit exhausted b = (case_exhausted, b)
  finish_case permit cancelled b = (case_cancelled, b)
  finish_case permit (ended e) b =
      let (events, after) =
        record_terminal (section (λ r. r.circuit_breaker) config) times.at_record permit
          (not (is_some e.error) && is_some e.response)
          (elim e.error [ none ↦ "" | some error ↦ error.category ]) b in
      (
        judge config.target.pricing case_id iteration evaluate e.error e.response e.latency
            (extend_last events e.attempts) e.tools (times.at_end - times.case_started),
        after,
      )

  -- `_execute_permitted_case`
  execute_permitted_case :
      (ℕ → Reading) → (fuel : ℕ) → CircuitPermit → CircuitBreaker → CaseEnd × CircuitBreaker
  unfolding finish_case
  execute_permitted_case env fuel permit b =
      finish_case permit
        (attempt_loop setup (section (λ r. some r.retry) config) permit case_id iteration
          (times.case_started + config.workload.timeout_seconds * 1_000_000_000) env fuel 1 0 [])
        b

  start_case :
      (ℕ → Reading)
      → (fuel : ℕ) → (meanwhile : CircuitBreaker → CircuitBreaker) → Acquired
      → CircuitBreaker
      → CaseEnd × CircuitBreaker
  unfolding execute_permitted_case rejected_attempt
  start_case env fuel meanwhile (granted permit) held =
      execute_permitted_case env fuel permit (meanwhile held)
  start_case env fuel meanwhile (Circuit.rejected error) held = (
    failed_result config.target.pricing case_id iteration error (rejected_attempt error ∷ []) []
        (times.at_end - times.case_started),
    held,
  )

  -- `_execute_case`
  unfoldable pub execute_case :
      (ℕ → Reading)
      → (fuel : ℕ) → (meanwhile : CircuitBreaker → CircuitBreaker) → CircuitBreaker
      → CaseEnd × CircuitBreaker
  unfolding start_case
  execute_case env fuel meanwhile b =
      let (answer, held) = acquire (section (λ r. r.circuit_breaker) config) times.at_acquire b in
      start_case env fuel meanwhile answer held
