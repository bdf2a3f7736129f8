-- ===== src/Runner/Records.antt =====
-- worker/src/agentstorm_worker/models.py: the results of attempts and cases.
use agent_storm.Prelude.{ℕ, String, Bool, Option, List}
use agent_storm.Models.{AssertionOutcome}
use agent_storm.Retry.{Decision}

-- The values of `AttemptResult.outcome`.
pub data AttemptOutcome : Type 0 where
  succeeded failed rejected : AttemptOutcome

pub record AttemptResult : Type 0 where
  pub number : ℕ
  pub latency : ℕ
  pub outcome : AttemptOutcome
  pub failure_category : String
  pub error_code : String
  pub injected_rule : String
  pub injected_fault : String
  pub ambiguous : Bool
  pub retry_decision : Decision
  pub backoff_ms : ℕ
  pub input_tokens : Option ℕ
  pub output_tokens : Option ℕ
  pub usage_complete : Bool
  pub model_call_count : Option ℕ
  pub tool_call_count : ℕ
  pub circuit_events : List String
  pub provider_error_code : String
  pub rate_limit_events : ℕ
  pub finish_reason : String

pub record CaseResult : Type 0 where
  pub case_id : String
  pub iteration : ℕ
  pub success : Bool
  pub latency : ℕ
  pub failure_kind : String
  pub failure_category : String
  pub error_code : String
  pub attempts : List AttemptResult
  pub usage_complete : Bool
  pub output : String
  pub error : Option String
  pub input_tokens : ℕ
  pub output_tokens : ℕ
  pub model_call_count : Option ℕ
  pub tool_call_count : ℕ
  pub tool_path : List String
  pub assertions : List AssertionOutcome
  pub input_cost : Option ℕ
  pub output_cost : Option ℕ
  pub total_cost : Option ℕ
  pub provider_error_code : String
  pub in_call_retry_count : ℕ
