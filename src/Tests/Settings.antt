-- ===== src/Tests/Settings.antt =====
-- config.py and scheduler.py at small inputs.
use agent_storm.Prelude.{
  subst, ℕ, zero, suc, ◌+◌, ◌≤◌, false, none, some, [], ◌≡◌, ◌≢◌, refl, arith,
}
use agent_storm.Tests.Fixtures.{plain_setup, breaker_config}
use agent_storm.Models.{Value}
use agent_storm.Models.Json
use agent_storm.Models.Json.{get}
use agent_storm.Prelude.Int.{pos}
use agent_storm.Config.{ReliabilityConfig}
use agent_storm.Config.Readers.{only_keys, int_from, strict_int, unit_ratio}
use agent_storm.Config.Scenario.{parse_scenario}
use agent_storm.Config.Reliability.{
  parse_reliability, reliability_fields, parse_retry, retry_fields, parse_circuit_breaker,
  breaker_fields,
}
use agent_storm.Config.Reliability.Validity.{IsValid, parse_reliability-IsValid}
use agent_storm.Circuit.{plain_permit}
use agent_storm.Runner.Attempt.{stopped}
use agent_storm.Adapters.{raised, raise_error}
use agent_storm.Runner.Case.{Reading, exhausted, attempt_loop}
use agent_storm.Runner.Configured.{configured_attempts_end}
use agent_storm.Scheduler.{
  PermitGrant, Round, leased, busy, stuck, wait_for_grant, busy_delay, permit_lost,
}
use agent_storm.Scheduler.Waiting.{
  IsClock, IsExplained, wait_for_grant_ends, wait_for_grant-IsExplained,
}

-- {"seed": 7, "retry": {"maxAttempts": 3}, "circuitBreaker": {...}}
abbrev settings : Value
settings = Json.object (
    Json.field "seed" (Json.int (pos 7)) (
      Json.field "retry" (Json.object (Json.field "maxAttempts" (Json.int (pos 3)) Json.end)) (
        Json.field "circuitBreaker"
          (Json.object (
            Json.field "failureThreshold" (Json.int (pos 2))
              (Json.field "openDurationMs" (Json.int (pos 5)) Json.end)))
          Json.end)))

abbrev accepted : ReliabilityConfig
accepted = record {
  seed = some 7;
  retry = record {
    max_attempts = 3;
    initial_backoff_ms = 100;
    max_backoff_ms = 2000;
    max_cumulative_backoff_ms = 5000;
    jitter_ratio = record { numerator = 1; over = 4 };
    allow_ambiguous_retries = false;
  };
  circuit_breaker = some breaker_config;
  scenario = none;
}

settings-accepted : parse_reliability (some settings) ≡ some (some accepted)
unfolding parse_reliability reliability_fields parse_retry retry_fields parse_circuit_breaker
    breaker_fields parse_scenario only_keys int_from strict_int unit_ratio get
settings-accepted = refl

abbrev halted : ℕ → Reading
halted = λ n. record {
  stopped_before = false;
  now_before = 1;
  invocation = record {
    permit = stopped;
    run = record { tools = []; outcome = raised (raise_error permit_lost) };
    interrupt = none;
    recorded = 0;
    duration = 0;
  };
  now_after = 2;
  stopped_after = false;
  stopped_in_backoff = false;
}

abbrev lease : PermitGrant
lease = record { permit_id = "p"; lease_token = "t"; renew_after_ms = pos 1000 }

-- The scheduler is busy once and then gives a grant.
abbrev rounds : ℕ → Round
rounds zero = record {
  stopped = false;
  now = 0;
  answer = busy 1;
  now_after = 1;
  stopped_after = false;
  woken = false;
}
rounds (suc n) = record {
  stopped = false;
  now = 1_000_001;
  answer = leased lease;
  now_after = 1_000_001;
  stopped_after = false;
  woken = false;
}

rounds_forwards : (n : ℕ) → (rounds n).now ≤ (rounds n).now_after
rounds_forwards zero = omega arith
rounds_forwards (suc n) = omega arith

rounds_sleeps :
    (n ms : ℕ)
    → (rounds n).answer ≡ busy ms
    → (rounds n).now_after + busy_delay 9_000_000 ms (rounds n).now_after ≤ (rounds (suc n)).now
rounds_sleeps zero ms e =
    let same : 1 ≡ ms = cc in
    subst (λ k. 1 + busy_delay 9_000_000 k 1 ≤ 1_000_001) same (omega arith)
rounds_sleeps (suc n) ms e = cc

rounds-IsClock : IsClock 9_000_000 rounds
rounds-IsClock = record { forwards = rounds_forwards; sleeps = rounds_sleeps }

parse_reliability-IsValid_example : IsValid accepted
parse_reliability-IsValid_example =
    parse_reliability-IsValid (some settings) accepted settings-accepted

configured_attempts_end_example :
    attempt_loop plain_setup (some accepted.retry) plain_permit "c" 0 9 halted 10 1 0 [] ≢ exhausted
configured_attempts_end_example =
    configured_attempts_end (some settings) accepted plain_setup plain_permit "c" 0 9 halted
      settings-accepted

wait_for_grant_ends_example : wait_for_grant 9_000_000 rounds 9_000_001 0 ≢ stuck
wait_for_grant_ends_example =
    wait_for_grant_ends 9_000_000 rounds 9_000_001 0 rounds-IsClock (omega arith)

wait_for_grant-IsExplained_example :
    IsExplained 9_000_000 rounds (wait_for_grant 9_000_000 rounds 3 0)
wait_for_grant-IsExplained_example = wait_for_grant-IsExplained 9_000_000 rounds 3 0
