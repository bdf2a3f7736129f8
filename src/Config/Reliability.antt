-- ===== src/Config/Reliability.antt =====
-- config.py: `_reliability` and what it reads. `none` is the ValueError.
pub mod Validity
use agent_storm.Prelude.{
  ℕ, suc, ◌≤◌, String, Bool, true, false, not, ◌&&◌, ◌||◌, Option, none, some, List, [], ◌∷◌, ◌>>=◌,
  guard, ltb, leb, str_eq, if◌then◌else◌, all_of, is_some, byte_count, is_sha256_digest, length,
  map, ◌==◌,
}
use agent_storm.Prelude.Int.{ℤ, pos, negsuc}
use agent_storm.Models.{Value, Items, Fields}
use agent_storm.Models.Json
use agent_storm.Models.Json.{get}
use agent_storm.Config.{
  Ratio, CircuitBreakerConfig, RetryConfig, Fault, latency, timeout, http_error, malformed_response,
  rate_limit, tool_error, FaultRuleConfig, FaultScenarioConfig, ReliabilityConfig,
}
use agent_storm.Config.Readers.{
  get_or, is_present, only_keys, int_from, unit_ratio, nonempty_string, string_selector,
  integer_selector, are_unique,
}
use agent_storm.Config.Scenario.{parse_scenario}

strict_bool : Value → Option Bool
strict_bool (Json.boolean b) = some b
strict_bool _ = none

-- The default of `jitterRatio`, 0.2.
default_jitter : Value
default_jitter = Json.float (Json.finite (pos 1) 4)

unfoldable pub retry_fields : Fields → Option RetryConfig
unfolding strict_bool default_jitter
retry_fields fields = do
  known ← guard (
      only_keys fields (
        "maxAttempts" ∷ "initialBackoffMs" ∷ "maxBackoffMs" ∷ "maxCumulativeBackoffMs"
        ∷ "jitterRatio" ∷ "allowAmbiguousRetries" ∷ []))
  attempts ← int_from 1 (some (get_or "maxAttempts" (Json.int (pos 1)) fields))
  initial ← int_from 1 (some (get_or "initialBackoffMs" (Json.int (pos 100)) fields))
  maximum ← int_from 1 (some (get_or "maxBackoffMs" (Json.int (pos 2000)) fields))
  cumulative ← int_from 1 (some (get_or "maxCumulativeBackoffMs" (Json.int (pos 5000)) fields))
  jitter ← unit_ratio (some (get_or "jitterRatio" default_jitter fields))
  ambiguous ← strict_bool (get_or "allowAmbiguousRetries" (Json.boolean false) fields)
  few ← guard (leb attempts 10)
  ordered ← guard (leb initial maximum)
  some (record {
    max_attempts = attempts;
    initial_backoff_ms = initial;
    max_backoff_ms = maximum;
    max_cumulative_backoff_ms = cumulative;
    jitter_ratio = jitter;
    allow_ambiguous_retries = ambiguous;
  })

-- `_retry`
unfoldable pub parse_retry : Value → Option RetryConfig
unfolding retry_fields
parse_retry (Json.object fields) = retry_fields fields
parse_retry _ = none

unfoldable pub breaker_fields : Fields → Option CircuitBreakerConfig
breaker_fields fields = do
  known ← guard (only_keys fields ("failureThreshold" ∷ "openDurationMs" ∷ []))
  threshold ← int_from 1 (get "failureThreshold" fields)
  duration ← int_from 1 (get "openDurationMs" fields)
  some (record { failure_threshold = threshold; open_duration_ms = duration })

-- `_circuit_breaker`, `some none` for None.
unfoldable pub parse_circuit_breaker : Option Value → Option (Option CircuitBreakerConfig)
unfolding breaker_fields
parse_circuit_breaker none = some none
parse_circuit_breaker (some Json.null) = some none
parse_circuit_breaker (some (Json.object fields)) = do
  config ← breaker_fields fields
  some (some config)
parse_circuit_breaker (some _) = none

seed_of : Option Value → Option (Option ℕ)
seed_of none = some none
seed_of (some Json.null) = some none
seed_of (some (Json.int (pos n))) = some (some n)
seed_of (some _) = none

unfoldable pub reliability_fields : Fields → Option ReliabilityConfig
unfolding seed_of
reliability_fields fields = do
  known ← guard (only_keys fields ("seed" ∷ "retry" ∷ "circuitBreaker" ∷ "scenario" ∷ []))
  seed ← seed_of (get "seed" fields)
  retry ← parse_retry (get_or "retry" (Json.object Json.end) fields)
  breaker ← parse_circuit_breaker (get "circuitBreaker" fields)
  scenario ← parse_scenario (get "scenario" fields)
  seeded ← guard (not (is_some scenario) || is_some seed)
  some (record { seed = seed; retry = retry; circuit_breaker = breaker; scenario = scenario })

-- `_reliability`, `some none` for None.
unfoldable pub parse_reliability : Option Value → Option (Option ReliabilityConfig)
unfolding reliability_fields
parse_reliability none = some none
parse_reliability (some Json.null) = some none
parse_reliability (some (Json.object fields)) = do
  config ← reliability_fields fields
  some (some config)
parse_reliability (some _) = none
