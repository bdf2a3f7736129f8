-- ===== src/Config.antt =====
-- worker/src/agentstorm_worker/config.py: the records of a run's configuration.
-- A float that the validation has placed between 0 and 1 is an exact fraction.
pub mod Readers
pub mod Scenario
pub mod Reliability
pub mod Dataset
pub mod Run
use agent_storm.Prelude.{ℕ, String, Bool, Option, List}
use agent_storm.Prelude.Int.{ℤ}
use agent_storm.Models.{Fields}
use agent_storm.Models.Json

-- numerator / (over + 1)
pub record Ratio : Type 0 where
  pub numerator : ℕ
  pub over : ℕ

pub record CircuitBreakerConfig : Type 0 where
  pub failure_threshold : ℕ
  pub open_duration_ms : ℕ

pub record RetryConfig : Type 0 where
  pub max_attempts : ℕ
  pub initial_backoff_ms : ℕ
  pub max_backoff_ms : ℕ
  pub max_cumulative_backoff_ms : ℕ
  pub jitter_ratio : Ratio
  pub allow_ambiguous_retries : Bool

pub data Fault : Type 0 where
  latency timeout http_error malformed_response rate_limit tool_error : Fault

pub record FaultRuleConfig : Type 0 where
  pub name : String
  pub fault : Fault
  pub probability : Ratio
  pub case_ids : List String
  pub iterations : List ℕ
  pub attempts : List ℕ
  pub delay_ms : Option ℕ
  pub status_code : Option ℕ
  pub tool_name : String

pub record FaultScenarioConfig : Type 0 where
  pub source_name : String
  pub source_key : String
  pub digest : String
  pub rules : List FaultRuleConfig

pub record ReliabilityConfig : Type 0 where
  pub seed : Option ℕ
  pub retry : RetryConfig
  pub circuit_breaker : Option CircuitBreakerConfig
  pub scenario : Option FaultScenarioConfig

-- The prices are texts with at most twelve decimals, here with what `Decimal` makes of them: their
-- units of 10 ^ -12 USD.
pub record PricingConfig : Type 0 where
  pub input_text : String
  pub output_text : String
  pub input_usd_per_million_tokens : ℕ
  pub output_usd_per_million_tokens : ℕ

pub record EvaluationConfig : Type 0 where
  pub min_success_rate : Option Json.Float
  pub max_error_rate : Option Json.Float
  pub max_p95_latency_ms : Option ℤ

pub record WorkloadConfig : Type 0 where
  pub concurrency : ℕ
  pub iterations : ℕ
  pub timeout_seconds : ℕ

pub record TargetConfig : Type 0 where
  pub provider : String
  pub model : String
  pub base_url : String
  pub adapter_entrypoint : String
  pub pricing : Option PricingConfig
  pub max_output_tokens : Option ℕ
  pub request_fields : Fields
  pub http_retry_attempts : Option ℕ
  pub http_retry_max_wait_seconds : Option ℕ

pub record SourceConfig : Type 0 where
  pub namespace : String
  pub name : String

pub record DatasetConfig : Type 0 where
  pub name : String
  pub key : String

-- `redaction` is not a record of its own.
pub record TelemetryConfig : Type 0 where
  pub content_mode : String
  pub patterns : List String
  pub metadata_keys : List String

pub record RunConfig : Type 0 where
  pub run_id : String
  pub source : SourceConfig
  pub dataset : DatasetConfig
  pub target : TargetConfig
  pub workload : WorkloadConfig
  pub evaluation : EvaluationConfig
  pub telemetry : TelemetryConfig
  pub reliability : Option ReliabilityConfig
