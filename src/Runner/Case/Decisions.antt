-- ===== src/Runner/Case/Decisions.antt =====
-- runner.py: what a decision to retry implies, for one attempt.
use agent_storm.Prelude.{
  ℕ, ◌+◌, ◌-◌, ◌≤◌, ◌<◌, String, true, false, Option, none, some, ◌≡◌, refl, inl, inr, arith,
  Bool-cases, ◌==◌,
}
use agent_storm.Config.{RetryConfig}
use agent_storm.Errors.{ExecutionError}
use agent_storm.Retry.{Decision, is_retry, retry_backoff_ms, retry_eligibility}
use agent_storm.Circuit.{CircuitPermit, nanoseconds}
use agent_storm.Runner.Records.{AttemptResult}
use agent_storm.Runner.Attempt.{Setup}
use agent_storm.Runner.Case.{
  probe_limit, count_limit, budgeted, decide, with_decision, with_permit_events,
}

-- What a retry after attempt `number` rests on.
pub record IsRetry (retry : Option RetryConfig) (permit : CircuitPermit)
    (number cumulative time_left : ℕ) (error : ExecutionError) (decision : Decision) (backoff : ℕ)
    : Type 0 where
  pub config : RetryConfig
  pub configured : retry ≡ some config
  pub plain : permit.probe ≡ false
  pub within_attempts : number < config.max_attempts
  pub within_budget : cumulative + backoff ≤ config.max_cumulative_backoff_ms
  pub within_time : nanoseconds backoff < time_left
  pub eligible : is_retry (retry_eligibility error config) ≡ true
  pub decided : decision ≡ retry_eligibility error config

budgeted_retry :
    (config : RetryConfig) (permit : CircuitPermit) (number cumulative time_left backoff : ℕ)
    (eligibility : Decision)
    → let result =
        budgeted config cumulative time_left backoff
          (count_limit config number (probe_limit permit eligibility)) in
      is_retry result.0 ≡ true
      → (permit.probe ≡ false)
        × (number < config.max_attempts)
        × (cumulative + result.1 ≤ config.max_cumulative_backoff_ms)
        × (nanoseconds result.1 < time_left)
        × (result.0 ≡ eligibility)
unfolding budgeted count_limit probe_limit
budgeted_retry config permit number cumulative time_left backoff eligibility h = ground arith

not_retry_no_backoff :
    (config : RetryConfig) (cumulative time_left backoff : ℕ) (decision : Decision)
    → let result = budgeted config cumulative time_left backoff decision in
      is_retry result.0 ≡ false → result.1 ≡ 0
unfolding budgeted
not_retry_no_backoff config cumulative time_left backoff decision h = ground arith

module _ (setup : Setup) (permit : CircuitPermit) (case_id : String) (iteration deadline : ℕ) where
  decide-IsRetry :
      (retry : Option RetryConfig) (number cumulative time_left : ℕ) (error : ExecutionError)
      → let result =
          decide setup retry permit case_id iteration deadline number cumulative time_left error in
        is_retry result.0 ≡ true
        → IsRetry retry permit number cumulative time_left error result.0 result.1
  unfolding decide
  decide-IsRetry none number cumulative time_left error h = cc
  decide-IsRetry (some config) number cumulative time_left error h =
      let backoff =
        retry_backoff_ms setup.digest_number config setup.seed case_id iteration number in
      let (plain, attempts, budget, time, same) =
        budgeted_retry config permit number cumulative time_left backoff
          (retry_eligibility error config) h in
      record {
        config = config;
        configured = refl;
        plain = plain;
        within_attempts = attempts;
        within_budget = budget;
        within_time = time;
        eligible = rw same at h;
        decided = same;
      }

  decide_final :
      (retry : Option RetryConfig) (number cumulative time_left : ℕ) (error : ExecutionError)
      → let result =
          decide setup retry permit case_id iteration deadline number cumulative time_left error in
        is_retry result.0 ≡ false → result.1 ≡ 0
  unfolding decide
  decide_final none number cumulative time_left error h = refl
  decide_final (some config) number cumulative time_left error h =
      not_retry_no_backoff config cumulative time_left _ _ h

  -- An attempt is marked for a retry only after an error, and then for the reasons of `IsRetry`.
  pub with_decision-IsRetry :
      (retry : Option RetryConfig) (number cumulative now : ℕ) (e : Option ExecutionError)
      (a : AttemptResult)
      → let after =
          with_decision setup retry permit case_id iteration deadline number cumulative now e a in
        is_retry after.retry_decision ≡ true
        → (error : ExecutionError) × (e ≡ some error)
          × IsRetry retry permit number cumulative
              (deadline - now)
              error
              after.retry_decision
              after.backoff_ms
  unfolding with_decision
  with_decision-IsRetry retry number cumulative now none a h = cc
  with_decision-IsRetry retry number cumulative now (some error) a h =
      (error, refl, decide-IsRetry retry number cumulative (deadline - now) error h)

  -- An attempt that is not retried waits for nothing, if it did not before.
  pub with_decision_final :
      (retry : Option RetryConfig) (number cumulative now : ℕ) (e : Option ExecutionError)
      (a : AttemptResult)
      → let after =
          with_decision setup retry permit case_id iteration deadline number cumulative now e a in
        a.backoff_ms ≡ 0 → is_retry after.retry_decision ≡ false → after.backoff_ms ≡ 0
  unfolding with_decision
  with_decision_final retry number cumulative now none a z h = z
  with_decision_final retry number cumulative now (some error) a z h =
      decide_final retry number cumulative (deadline - now) error h

  pub with_decision_keeps :
      (retry : Option RetryConfig) (number cumulative now : ℕ) (e : Option ExecutionError)
      (a : AttemptResult)
      → let after =
          with_decision setup retry permit case_id iteration deadline number cumulative now e a in
        (after.number ≡ a.number)
        × (after.failure_category ≡ a.failure_category)
        × (after.error_code ≡ a.error_code)
        × (after.ambiguous ≡ a.ambiguous)
  unfolding with_decision
  with_decision_keeps retry number cumulative now none a = (refl, refl, refl, refl)
  with_decision_keeps retry number cumulative now (some error) a = (refl, refl, refl, refl)

  pub with_permit_events_keeps :
      (retry : Option RetryConfig) (number : ℕ) (a : AttemptResult)
      → let after = with_permit_events setup retry permit case_id iteration deadline number a in
        (after.number ≡ a.number)
        × (after.failure_category ≡ a.failure_category)
        × (after.error_code ≡ a.error_code)
        × (after.ambiguous ≡ a.ambiguous)
        × (after.backoff_ms ≡ a.backoff_ms)
  unfolding with_permit_events
  with_permit_events_keeps retry number a = elim (Bool-cases (number == 1)) [
    | inl e ↦ rw e (refl, refl, refl, refl, refl)
    | inr e ↦ rw e (refl, refl, refl, refl, refl)
  ]
