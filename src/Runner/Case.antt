-- ===== src/Runner/Case.antt =====
-- runner.py: the loop of attempts of `_execute_permitted_case`.
-- What the world decides at attempt n is `env n`: the readings of the stop event and of the clock (in
-- nanoseconds), and the call. The loop has fuel; telemetry is left out.
pub mod Decisions
pub mod Attempts
pub mod Loops
pub mod Answered
use agent_storm.Prelude.{
  ℕ, zero, suc, ◌+◌, ◌-◌, ◌*◌, String, Bool, true, false, not, ◌&&◌, ◌||◌, Option, none, some, List,
  [], ◌∷◌, ◌++◌, ◌==◌, ltb, leb, if◌then◌else◌, is_some, is_empty, concat, all_of, keep, map,
}
use agent_storm.Models.{AdapterResponse, AssertionOutcome}
use agent_storm.Config.{RetryConfig, PricingConfig, CircuitBreakerConfig}
use agent_storm.Errors.{ExecutionError, execution_error}
use agent_storm.Retry.{
  Decision, is_retry, not_needed, not_retryable, half_open_no_retry, attempt_limit, backoff_budget,
  time_budget, retry_backoff_ms, retry_eligibility,
}
use agent_storm.Circuit.{
  CircuitPermit, CircuitBreaker, Acquired, granted, acquire, record_terminal, nanoseconds,
}
use agent_storm.Circuit
use agent_storm.Pricing.{Costs}
use agent_storm.Runner.Records.{AttemptResult, CaseResult}
use agent_storm.Runner.Records
use agent_storm.Runner.Attempt.{Setup, Invocation, Tried, invoke_attempt}
use agent_storm.Runner.Usage.{attempt_usage, attempt_calls, costs_for_usage, case_provider_fields}

pub record Reading : Type 0 where
  pub stopped_before : Bool
  pub now_before : ℕ
  pub invocation : Invocation
  pub now_after : ℕ
  pub stopped_after : Bool
  pub stopped_in_backoff : Bool

-- How the loop of attempts ends.
pub record End : Type 0 where
  pub response : Option AdapterResponse
  pub error : Option ExecutionError
  pub attempts : List AttemptResult
  pub tools : List String
  pub latency : ℕ

pub data Loop : Type 0 where
  exhausted cancelled : Loop
  ended : End → Loop

probe_limit : CircuitPermit → Decision → Decision
probe_limit permit decision =
    if is_retry decision && permit.probe then half_open_no_retry else decision

count_limit : RetryConfig → ℕ → Decision → Decision
count_limit retry number decision =
    if is_retry decision && leb retry.max_attempts number then attempt_limit else decision

-- The delay under the two budgets.
budgeted : RetryConfig → (cumulative time_left backoff : ℕ) → Decision → Decision × ℕ
budgeted retry cumulative time_left backoff decision =
    if not (is_retry decision)
    then (decision, 0)
    else if ltb retry.max_cumulative_backoff_ms (cumulative + backoff)
    then (backoff_budget, 0)
    else if leb time_left (nanoseconds backoff)
    then (time_budget, 0)
    else (decision, backoff)

module _ (setup : Setup) (retry : Option RetryConfig) (permit : CircuitPermit) (case_id : String)
    (iteration deadline : ℕ) where
  -- The retry decision and the delay after a failed attempt.
  unfoldable pub decide : ℕ → (cumulative time_left : ℕ) → ExecutionError → Decision × ℕ
  unfolding probe_limit count_limit budgeted
  decide number cumulative time_left error = elim retry [
    | none ↦ (not_retryable, 0)
    | some config ↦
        budgeted config cumulative time_left
          (retry_backoff_ms setup.digest_number config setup.seed case_id iteration number)
          (count_limit config number (probe_limit permit (retry_eligibility error config)))
  ]

  unfoldable pub with_permit_events : ℕ → AttemptResult → AttemptResult
  with_permit_events number a =
      if number == 1 then record a { circuit_events = a.circuit_events ++ permit.events } else a

  -- The decision as it is written to the attempt.
  unfoldable pub with_decision :
      ℕ → (cumulative now : ℕ) → Option ExecutionError → AttemptResult → AttemptResult
  with_decision number cumulative now none a = record a { retry_decision = not_needed }
  with_decision number cumulative now (some error) a =
      let (decision, backoff) = decide number cumulative (deadline - now) error in
      record a { retry_decision = decision; backoff_ms = backoff }

  unfoldable pub decided : ℕ → (cumulative now : ℕ) → Tried → AttemptResult
  unfolding with_permit_events
  decided number cumulative now tried =
      with_decision number cumulative now tried.error (with_permit_events number tried.attempt)

  -- What follows an attempt; `again` is the rest of the loop.
  unfoldable pub settle :
      (ℕ → ℕ → List AttemptResult → Loop)
      → ℕ
      → (cumulative : ℕ) → List AttemptResult
      → Reading
      → Option Tried
      → Loop
  settle again number cumulative attempts r none = cancelled
  settle again number cumulative attempts r (some tried) =
      let a = decided number cumulative r.now_after tried in
      let rest = again (suc number) (cumulative + a.backoff_ms) (attempts ++ a ∷ []) in
      if is_retry a.retry_decision
      then (if r.stopped_after || r.stopped_in_backoff then cancelled else rest)
      else ended (record {
        response = tried.response;
        error = tried.error;
        attempts = attempts ++ a ∷ [];
        tools = tried.tools;
        latency = a.latency;
      })

  unfoldable pub try_once : ℕ → Reading → Option Tried
  try_once number r =
      if r.stopped_before
      then none
      else invoke_attempt setup case_id iteration number (deadline - r.now_before) r.invocation

  -- The `while True` loop, on fuel.
  unfoldable pub attempt_loop : (ℕ → Reading) → ℕ → ℕ → (cumulative : ℕ) → List AttemptResult → Loop
  attempt_loop env zero number cumulative attempts = exhausted
  attempt_loop env (suc fuel) number cumulative attempts =
      settle (attempt_loop env fuel) number cumulative attempts (env number)
        (try_once number (env number))
