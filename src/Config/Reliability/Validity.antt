-- ===== src/Config/Reliability/Validity.antt =====
-- config.py: what an accepted reliability section satisfies.
use agent_storm.Prelude.{ap, ◌∙◌, suc, ◌≤◌, true, Option, none, some, ◌≡◌, is_some, arith}
use agent_storm.Models.{Value, Fields}
use agent_storm.Models.Json
use agent_storm.Models.Json.{get}
use agent_storm.Config.{CircuitBreakerConfig, RetryConfig, FaultScenarioConfig, ReliabilityConfig}
use agent_storm.Config.Readers.{get_or}
use agent_storm.Config.Scenario.{parse_scenario}
use agent_storm.Config.Reliability.{
  parse_retry, retry_fields, breaker_fields, parse_circuit_breaker, reliability_fields,
  parse_reliability,
}
use agent_storm.Config.Scenario.Rules.{
  int_from-le, ratio_bounds, lifted_inverse, IsValidScenario, scenario-IsValid,
}

pub record IsValidRetry (retry : RetryConfig) : Type 0 where
  pub some_attempts : 1 ≤ retry.max_attempts
  pub few_attempts : retry.max_attempts ≤ 10
  pub positive : (1 ≤ retry.initial_backoff_ms) × (1 ≤ retry.max_cumulative_backoff_ms)
  pub ordered : retry.initial_backoff_ms ≤ retry.max_backoff_ms
  pub jitter : retry.jitter_ratio.numerator ≤ suc retry.jitter_ratio.over

retry_fields-IsValidRetry :
    (fields : Fields) (retry : RetryConfig) → retry_fields fields ≡ some retry → IsValidRetry retry
unfolding retry_fields
retry_fields-IsValidRetry fields retry h = grind (arith, int_from-le, ratio_bounds)

parse_retry-IsValidRetry :
    (value : Value) (retry : RetryConfig) → parse_retry value ≡ some retry → IsValidRetry retry
unfolding parse_retry
parse_retry-IsValidRetry (Json.object fields) retry h = retry_fields-IsValidRetry fields retry h
parse_retry-IsValidRetry Json.null retry h = cc
parse_retry-IsValidRetry (Json.boolean b) retry h = cc
parse_retry-IsValidRetry (Json.int n) retry h = cc
parse_retry-IsValidRetry (Json.float x) retry h = cc
parse_retry-IsValidRetry (Json.text t) retry h = cc
parse_retry-IsValidRetry (Json.array items) retry h = cc

pub record IsValidBreaker (breaker : CircuitBreakerConfig) : Type 0 where
  pub threshold : 1 ≤ breaker.failure_threshold
  pub duration : 1 ≤ breaker.open_duration_ms

breaker_fields-IsValidBreaker :
    (fields : Fields) (breaker : CircuitBreakerConfig)
    → breaker_fields fields ≡ some breaker
    → IsValidBreaker breaker
unfolding breaker_fields
breaker_fields-IsValidBreaker fields breaker h = grind (arith, int_from-le)

breaker-IsValidBreaker :
    (value : Option Value) (breaker : CircuitBreakerConfig)
    → parse_circuit_breaker value ≡ some (some breaker)
    → IsValidBreaker breaker
unfolding parse_circuit_breaker
breaker-IsValidBreaker value breaker h = grind (arith, breaker_fields-IsValidBreaker)

-- An accepted reliability section.
pub record IsValid (r : ReliabilityConfig) : Type 0 where
  pub retry : IsValidRetry r.retry
  pub breaker : (b : CircuitBreakerConfig) → r.circuit_breaker ≡ some b → IsValidBreaker b
  pub scenario : (s : FaultScenarioConfig) → r.scenario ≡ some s → IsValidScenario s.rules
  pub seeded : is_some r.scenario ≡ true → is_some r.seed ≡ true

-- What a section takes from its fields.
reliability_fields-read :
    (fields : Fields) (r : ReliabilityConfig)
    → reliability_fields fields ≡ some r
    → (parse_retry (get_or "retry" (Json.object Json.end) fields) ≡ some r.retry)
      × (parse_circuit_breaker (get "circuitBreaker" fields) ≡ some r.circuit_breaker)
      × (parse_scenario (get "scenario" fields) ≡ some r.scenario)
      × (is_some r.scenario ≡ true → is_some r.seed ≡ true)
unfolding reliability_fields
reliability_fields-read fields r h = grind arith

reliability_fields-IsValid :
    (fields : Fields) (r : ReliabilityConfig) → reliability_fields fields ≡ some r → IsValid r
reliability_fields-IsValid fields r h =
    let (retry, breaker, scenario, seeded) = reliability_fields-read fields r h in
    record {
      retry = parse_retry-IsValidRetry _ r.retry retry;
      breaker = λ b e. breaker-IsValidBreaker _ b (breaker ∙ ap some e);
      scenario = λ s e. scenario-IsValid _ s (scenario ∙ ap some e);
      seeded = seeded;
    }

-- A reliability section that the configuration accepts: between 1 and 10 attempts, positive delays in
-- order, a jitter between 0 and 1, a positive breaker, at most 100 rules with distinct names, each
-- with a probability between 0 and 1, attempts between 1 and 10 and just the fields of its fault, and
-- a seed where there is a scenario.
pub parse_reliability-IsValid :
    (value : Option Value) (r : ReliabilityConfig)
    → parse_reliability value ≡ some (some r)
    → IsValid r
unfolding parse_reliability
parse_reliability-IsValid none r h = cc
parse_reliability-IsValid (some (Json.object fields)) r h =
    reliability_fields-IsValid fields r (lifted_inverse (reliability_fields fields) r h)
parse_reliability-IsValid (some Json.null) r h = cc
parse_reliability-IsValid (some (Json.boolean b)) r h = cc
parse_reliability-IsValid (some (Json.int n)) r h = cc
parse_reliability-IsValid (some (Json.float x)) r h = cc
parse_reliability-IsValid (some (Json.text t)) r h = cc
parse_reliability-IsValid (some (Json.array items)) r h = cc
