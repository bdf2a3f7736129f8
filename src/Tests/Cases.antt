-- ===== src/Tests/Cases.antt =====
-- runner.py at small inputs: a case that is rate limited once and then answered.
use agent_storm.Prelude.{
  ℕ, zero, suc, String, true, false, Option, none, some, List, [], ◌∷◌, ◌≡◌, ◌≢◌, refl, arith,
}
use agent_storm.Tests.Fixtures.{plain_run, plain_setup, retry_config}
use agent_storm.Adapters.{raised, raise_error, fake_run}
use agent_storm.Errors.{classify_adapter_exception}
use agent_storm.Faults.{run_with_faults, select_fault_rule}
use agent_storm.Pricing.{case_costs}
use agent_storm.Retry.{retry_eligibility, retry_backoff_ms, capped_backoff}
use agent_storm.Runner.Metadata.{attempt_provider_code, rate_limit_events, provider_token}
use agent_storm.Runner.Usage.{costs_for_usage, attempt_usage, attempt_calls, case_provider_fields}
use agent_storm.Runner.Case.{settle, try_once, decided, with_decision, with_permit_events, decide}
use agent_storm.Runner.Finish.{extend_last, failed_result}
use agent_storm.Circuit.{record_terminal}
use agent_storm.Prelude.{lookup}
use agent_storm.Circuit.{CircuitBreaker, new, plain_permit, acquire, circuit_open}
use agent_storm.Errors.{ExecutionError}
use agent_storm.Models.{AdapterResponse, AssertionOutcome, TestCase}
use agent_storm.Retry.{retry_safe, not_needed}
use agent_storm.Runner.Records.{AttemptResult, CaseResult, succeeded, failed}
use agent_storm.Runner.Attempt.{Invocation, admitted, invoke_attempt}
use agent_storm.Runner.Case.{Reading, End, ended, exhausted, attempt_loop}
use agent_storm.Runner.Case.Attempts.{IsHistory}
use agent_storm.Runner.Case.Loops.{attempts_IsHistory, attempts_terminate}
use agent_storm.Runner.Finish.{Times, completed, execute_case}
use agent_storm.Runner.Finish.Results.{IsConsistent, execute_case-IsConsistent}

abbrev pub hello : TestCase
hello = record {
  case_id = "c";
  prompt = "hi";
  expected_contains = none;
  assertions = [];
  metadata = [];
}

abbrev limited : ExecutionError
limited = record circuit_open { code = "rate_limited"; safe_to_retry = true; circuit_events = [] }

abbrev refusal : Invocation
refusal = record {
  permit = admitted;
  run = record { tools = []; outcome = raised (raise_error limited) };
  interrupt = none;
  recorded = 0;
  duration = 3;
}

abbrev reply : Invocation
reply = record {
  permit = admitted;
  run = fake_run hello;
  interrupt = none;
  recorded = 0;
  duration = 5;
}

abbrev reading : Invocation → Reading
reading inv = record {
  stopped_before = false;
  now_before = 1;
  invocation = inv;
  now_after = 2;
  stopped_after = false;
  stopped_in_backoff = false;
}

-- The second attempt is answered.
abbrev pub readings : ℕ → Reading
readings zero = reading refusal
readings (suc zero) = reading refusal
readings (suc (suc n)) = reading reply

abbrev first_attempt : AttemptResult
first_attempt = record {
  number = 1;
  latency = 3;
  outcome = failed;
  failure_category = "provider";
  error_code = "rate_limited";
  injected_rule = "";
  injected_fault = "";
  ambiguous = false;
  retry_decision = retry_safe;
  backoff_ms = 4;
  input_tokens = some 0;
  output_tokens = some 0;
  usage_complete = true;
  model_call_count = none;
  tool_call_count = 0;
  circuit_events = [];
  provider_error_code = "";
  rate_limit_events = 0;
  finish_reason = "";
}

abbrev second_attempt : AttemptResult
second_attempt = record {
  number = 2;
  latency = 5;
  outcome = succeeded;
  failure_category = "";
  error_code = "";
  injected_rule = "";
  injected_fault = "";
  ambiguous = false;
  retry_decision = not_needed;
  backoff_ms = 0;
  input_tokens = some 11;
  output_tokens = some 7;
  usage_complete = true;
  model_call_count = some 1;
  tool_call_count = 1;
  circuit_events = [];
  provider_error_code = "";
  rate_limit_events = 0;
  finish_reason = "";
}

abbrev echoed : AdapterResponse
echoed = record {
  output = "fake response: hi";
  input_tokens = some 11;
  output_tokens = some 7;
  model_call_count = some 1;
  tool_call_count = some 1;
  metadata = [];
}

abbrev retried_end : End
retried_end = record {
  response = some echoed;
  error = none;
  attempts = first_attempt ∷ second_attempt ∷ [];
  tools = "fake.echo" ∷ [];
  latency = 5;
}

loop_ends :
    attempt_loop plain_setup (some retry_config) plain_permit "c" 0 2_000_000_000 readings 3 1 0 []
    ≡ ended retried_end
unfolding attempt_loop settle try_once invoke_attempt decided with_decision with_permit_events
    decide run_with_faults select_fault_rule fake_run retry_eligibility classify_adapter_exception
    retry_backoff_ms capped_backoff attempt_provider_code rate_limit_events provider_token lookup
loop_ends = refl

abbrev no_assertions : AdapterResponse → List String → ℕ → Option (List AssertionOutcome)
no_assertions = λ response tools latency. some []

abbrev pub times : Times
times = record { case_started = 0; at_acquire = 1; at_record = 2; at_end = 9 }

abbrev pub unchanged : CircuitBreaker → CircuitBreaker
unchanged = λ b. b

abbrev pub result : CaseResult
result = record {
  case_id = "c";
  iteration = 0;
  success = true;
  latency = 9;
  failure_kind = "";
  failure_category = "";
  error_code = "";
  attempts = first_attempt ∷ second_attempt ∷ [];
  usage_complete = true;
  output = "fake response: hi";
  error = none;
  input_tokens = 11;
  output_tokens = 7;
  model_call_count = none;
  tool_call_count = 1;
  tool_path = "fake.echo" ∷ [];
  assertions = [];
  input_cost = none;
  output_cost = none;
  total_cost = none;
  provider_error_code = "";
  in_call_retry_count = 0;
}

case_ends :
    (execute_case plain_setup plain_run "c" 0 no_assertions times readings 3 unchanged new).0
    ≡ completed result
unfolding execute_case acquire record_terminal extend_last costs_for_usage attempt_usage
    attempt_calls case_provider_fields case_costs failed_result attempt_loop settle try_once
    invoke_attempt decided with_decision with_permit_events decide run_with_faults select_fault_rule
    fake_run retry_eligibility classify_adapter_exception retry_backoff_ms capped_backoff
    attempt_provider_code rate_limit_events provider_token lookup
case_ends = refl

attempts_IsHistory_example : IsHistory (some retry_config) plain_permit retried_end.attempts
attempts_IsHistory_example =
    attempts_IsHistory plain_setup (some retry_config) plain_permit "c" 0 2_000_000_000 readings 3
      retried_end (omega arith) loop_ends

attempts_terminate_example :
    attempt_loop plain_setup (some retry_config) plain_permit "c" 0 2_000_000_000 readings 3 1 0 []
    ≢ exhausted
attempts_terminate_example =
    attempts_terminate plain_setup (some retry_config) plain_permit "c" 0 2_000_000_000 readings 3
      (omega arith) (omega arith)

execute_case-IsConsistent_example : IsConsistent result
execute_case-IsConsistent_example =
    execute_case-IsConsistent plain_setup plain_run "c" 0 no_assertions times readings 3 unchanged
      new result case_ends
