-- ===== src/Runner/Configured.antt =====
-- runner.py under a reliability section that config.py accepts: the hypotheses of the theorems on
-- attempts and on the breaker hold.
use agent_storm.Prelude.{ℕ, ◌≤◌, String, Option, some, List, [], ◌≡◌, ◌≢◌, arith}
use agent_storm.Models.{Value}
use agent_storm.Config.{CircuitBreakerConfig, RetryConfig, ReliabilityConfig}
use agent_storm.Config.Reliability.{parse_reliability}
use agent_storm.Config.Reliability.Validity.{parse_reliability-IsValid, IsValidRetry}
use agent_storm.Circuit.{CircuitPermit, new}
use agent_storm.Circuit.Invariant.{Call, IsSound, replay, replay-new-IsSound}
use agent_storm.Runner.Attempt.{Setup}
use agent_storm.Runner.Case.{Reading, exhausted, attempt_loop}
use agent_storm.Runner.Case.Attempts.{most_attempts}
use agent_storm.Runner.Case.Loops.{attempts_terminate}

attempts_between :
    (retry : RetryConfig) (permit : CircuitPermit)
    → IsValidRetry retry
    → (1 ≤ most_attempts (some retry) permit) × (most_attempts (some retry) permit ≤ 10)
attempts_between retry permit v = ground (arith, v.some_attempts, v.few_attempts)

-- Under an accepted reliability section the loop of attempts is over after at most ten attempts,
-- whatever the world does.
pub configured_attempts_end :
    (value : Option Value) (r : ReliabilityConfig) (setup : Setup) (permit : CircuitPermit)
    (case_id : String) (iteration deadline : ℕ) (env : ℕ → Reading)
    → parse_reliability value ≡ some (some r)
    → attempt_loop setup (some r.retry) permit case_id iteration deadline env 10 1 0 [] ≢ exhausted
configured_attempts_end value r setup permit case_id iteration deadline env h =
    let valid = parse_reliability-IsValid value r h in
    let (least, most) = attempts_between r.retry permit valid.retry in
    attempts_terminate setup (some r.retry) permit case_id iteration deadline env 10 least most

-- Under an accepted reliability section with a breaker, the breaker stays sound after any calls.
pub configured_breaker-IsSound :
    (value : Option Value) (r : ReliabilityConfig) (config : CircuitBreakerConfig)
    (calls : List Call)
    → parse_reliability value ≡ some (some r)
    → r.circuit_breaker ≡ some config
    → IsSound config (replay config calls new)
configured_breaker-IsSound value r config calls h e =
    let valid = parse_reliability-IsValid value r h in
    replay-new-IsSound config calls (valid.breaker config e).threshold
