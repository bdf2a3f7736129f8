-- ===== src/Results/Registration.antt =====
-- results.py: `register_run` and `_reliability_payload`.
pub mod Entries
pub mod RoundTrip
use agent_storm.Prelude.{
  ℕ, suc, String, Bool, true, false, not, Option, none, some, List, [], ◌∷◌, str_eq, is_empty,
  is_some, concat, decimal, if◌then◌else◌,
}
use agent_storm.Prelude.Int.{ℤ, pos}
use agent_storm.Models.{Value, Items, Fields}
use agent_storm.Models.Json
use agent_storm.Models.Json.{texts, number, numbers}
use agent_storm.Config.{
  Ratio, Fault, latency, timeout, http_error, malformed_response, rate_limit, tool_error,
  FaultRuleConfig, FaultScenarioConfig, RetryConfig, CircuitBreakerConfig, ReliabilityConfig,
  PricingConfig, TargetConfig, EvaluationConfig, RunConfig,
}
use agent_storm.Config.Scenario.Again.{fault_text}
use agent_storm.Config.Readers.{Python, ratio}
use agent_storm.Results.{ResultSinkConfig, Web, Request, Reply, Answer, put_to, run_path}
use agent_storm.Results.Payload.{entry, text_entry}

-- A number that is there where it is not None.
abbrev pub number_entry : String → Option ℕ → Fields → Fields
number_entry key none fields = fields
number_entry key (some n) fields = Json.field key (number n) fields

-- One rule of the scenario.
unfoldable pub rule_payload : FaultRuleConfig → Fields
rule_payload rule = Json.field "name" (Json.text rule.name) (
    Json.field "fault" (Json.text (fault_text rule.fault)) (
      Json.field "probability" (ratio rule.probability) (
        Json.field "attempts" (Json.array (numbers rule.attempts)) (
          entry (not (is_empty rule.case_ids)) "caseIDs" (Json.array (texts rule.case_ids)) (
            entry (not (is_empty rule.iterations)) "iterations"
              (Json.array (numbers rule.iterations))
              (number_entry "delayMs" rule.delay_ms (
                number_entry "statusCode" rule.status_code
                  (text_entry "toolName" rule.tool_name Json.end))))))))

unfoldable pub rules_payload : List FaultRuleConfig → Items
rules_payload [] = Json.nil
rules_payload (rule ∷ rules) = Json.cons (Json.object (rule_payload rule)) (rules_payload rules)

-- The scenario's document.
unfoldable pub document_payload : FaultScenarioConfig → Fields
document_payload scenario = Json.field "apiVersion" (Json.text "agentstorm.io/v1alpha1") (
    Json.field "kind" (Json.text "FaultScenario")
      (Json.field "rules" (Json.array (rules_payload scenario.rules)) Json.end))

scenario_payload : Option FaultScenarioConfig → Fields
scenario_payload none = Json.end
scenario_payload (some scenario) =
    Json.field "scenario"
      (Json.object (
        Json.field "source"
          (Json.object (
            Json.field "name" (Json.text scenario.source_name)
              (Json.field "key" (Json.text scenario.source_key) Json.end)))
          (Json.field "digest" (Json.text scenario.digest)
            (Json.field "document" (Json.object (document_payload scenario)) Json.end))))
      Json.end

breaker_payload : Option CircuitBreakerConfig → Fields → Fields
breaker_payload none fields = fields
breaker_payload (some breaker) fields =
    Json.field "circuit_breaker"
      (Json.object (
        Json.field "failure_threshold" (number breaker.failure_threshold)
          (Json.field "open_duration_ms" (number breaker.open_duration_ms) Json.end)))
      fields

retry_payload : RetryConfig → Value
retry_payload retry = Json.object (
    Json.field "max_attempts" (number retry.max_attempts) (
      Json.field "initial_backoff_ms" (number retry.initial_backoff_ms) (
        Json.field "max_backoff_ms" (number retry.max_backoff_ms) (
          Json.field "max_cumulative_backoff_ms" (number retry.max_cumulative_backoff_ms) (
            Json.field "jitter_ratio" (ratio retry.jitter_ratio) (
              Json.field "allow_ambiguous_retries" (Json.boolean retry.allow_ambiguous_retries)
                Json.end))))))

-- `_reliability_payload`
unfoldable pub reliability_payload : ReliabilityConfig → Value
unfolding retry_payload breaker_payload scenario_payload
reliability_payload reliability = Json.object (
    Json.field "retry" (retry_payload reliability.retry) (
      number_entry "seed" reliability.seed
        (breaker_payload reliability.circuit_breaker (scenario_payload reliability.scenario))))

pricing_payload : Option PricingConfig → Fields
pricing_payload none = Json.end
pricing_payload (some pricing) =
    Json.field "pricing"
      (Json.object (
        Json.field "input_usd_per_million_tokens" (Json.text pricing.input_text)
          (Json.field "output_usd_per_million_tokens" (Json.text pricing.output_text) Json.end)))
      Json.end

target_payload : TargetConfig → Value
unfolding pricing_payload
target_payload target = Json.object (
    Json.field "provider" (Json.text target.provider) (
      Json.field "model" (Json.text target.model) (
        text_entry "adapter_entrypoint" target.adapter_entrypoint
          (pricing_payload target.pricing))))

float_or_null : Option Json.Float → Value
float_or_null none = Json.null
float_or_null (some x) = Json.float x

int_or_null : Option ℤ → Value
int_or_null none = Json.null
int_or_null (some n) = Json.int n

reliability_entry : Option ReliabilityConfig → Fields
reliability_entry none = Json.end
reliability_entry (some reliability) =
    Json.field "reliability" (reliability_payload reliability) Json.end

named : (first second a b : String) → Value
named first second a b =
    Json.object (Json.field first (Json.text a) (Json.field second (Json.text b) Json.end))

unfoldable pub run_payload : RunConfig → (expected_shards : ℕ) → Fields
unfolding target_payload float_or_null int_or_null reliability_entry named
run_payload config expected_shards = Json.field "schema_version" (Json.text "v1alpha1") (
    Json.field "expected_shards" (number expected_shards) (
      Json.field "source" (named "namespace" "name" config.source.namespace config.source.name) (
        Json.field "target" (target_payload config.target) (
          Json.field "dataset" (named "name" "key" config.dataset.name config.dataset.key) (
            Json.field "evaluation"
              (Json.object (
                Json.field "min_success_rate" (float_or_null config.evaluation.min_success_rate) (
                  Json.field "max_failure_rate" (float_or_null config.evaluation.max_error_rate) (
                    Json.field "max_p95_ms" (int_or_null config.evaluation.max_p95_latency_ms)
                      Json.end))))
              (reliability_entry config.reliability))))))

-- `register_run`
unfoldable pub register_run :
    Python
    → Web
    → ResultSinkConfig
    → (Request → Reply)
    → RunConfig
    → (expected_shards : ℕ) → Answer Bool
register_run py web config send run expected_shards =
    put_to py web config send (run_path py web config send run.run_id "") (concat "run/" run.run_id)
      (run_payload run expected_shards) []
