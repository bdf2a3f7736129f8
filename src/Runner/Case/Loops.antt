-- ===== src/Runner/Case/Loops.antt =====
-- runner.py: the loop of attempts, whatever the world does.
use agent_storm.Prelude.{
  ℕ, zero, suc, ◌+◌, ◌-◌, ◌≤◌, ◌<◌, String, true, ◌||◌, Option, none, some, List, [], ◌∷◌, ◌++◌,
  ◌≡◌, ◌≢◌, refl, subst, inl, inr, arith, Bool-cases, is_some, ◌⊎◌,
}
use agent_storm.Config.{RetryConfig}
use agent_storm.Retry.{is_retry}
use agent_storm.Circuit.{CircuitPermit}
use agent_storm.Runner.Records.{AttemptResult}
use agent_storm.Runner.Attempt.{Setup, Tried}
use agent_storm.Runner.Attempt.Accounts.{IsAccount, invoke_attempt-IsAccount}
use agent_storm.Runner.Case.{
  Reading, End, Loop, exhausted, cancelled, ended, decided, settle, try_once, attempt_loop,
}
use agent_storm.Runner.Case.Attempts.{
  Progress, IsHistory, most_attempts, retried-Progress, final-IsHistory, decided-IsRetry,
  IsRetry-bounds,
}

eq_of_ended-eq : {e f : End} → ended e ≡ ended f → e ≡ f
eq_of_ended-eq h = cc

ended≢exhausted : {e : End} → ended e ≢ exhausted
ended≢exhausted h = cc

module _ (setup : Setup) (retry : Option RetryConfig) (permit : CircuitPermit) (case_id : String)
    (iteration deadline : ℕ) where
  -- What is claimed of the rest of the loop.
  abbrev Sound : (ℕ → ℕ → List AttemptResult → Loop) → Type 0
  Sound again =
      (number cumulative : ℕ) (attempts : List AttemptResult) (e : End)
      → Progress retry permit number cumulative attempts
      → again number cumulative attempts ≡ ended e
      → IsHistory retry permit e.attempts × ((is_some e.error ≡ true) ⊎ (is_some e.response ≡ true))

  try_once-IsAccount :
      (number : ℕ) (r : Reading) (tried : Tried)
      → try_once setup retry permit case_id iteration deadline number r ≡ some tried
      → IsAccount number tried
  unfolding try_once
  try_once-IsAccount number r tried h = elim (Bool-cases r.stopped_before) [
    | inl e ↦ let wrong : none ≡ some tried = rw e at h in cc
    | inr e ↦
        invoke_attempt-IsAccount setup case_id iteration number (deadline - r.now_before)
          r.invocation tried (rw e at h)
  ]

  settle-Sound :
      (again : ℕ → ℕ → List AttemptResult → Loop) (number cumulative : ℕ)
      (attempts : List AttemptResult) (r : Reading) (answer : Option Tried) (e : End)
      → Sound again
      → Progress retry permit number cumulative attempts
      → ((tried : Tried) → answer ≡ some tried → IsAccount number tried)
      → settle setup retry permit case_id iteration deadline again number cumulative attempts r
          answer
        ≡ ended e
      → IsHistory retry permit e.attempts × ((is_some e.error ≡ true) ⊎ (is_some e.response ≡ true))
  unfolding settle
  settle-Sound again number cumulative attempts r none e sound p acc h = cc
  settle-Sound again number cumulative attempts r (some tried) e sound p acc h =
      let a =
        decided setup retry permit case_id iteration deadline number cumulative r.now_after tried in
      let account = acc tried refl in
      elim (Bool-cases (is_retry a.retry_decision)) [
        | inl yes_retry ↦ elim (Bool-cases (r.stopped_after || r.stopped_in_backoff)) [
          | inl stop ↦ let wrong : cancelled ≡ ended e = rw (yes_retry, stop) at h in cc
          | inr go ↦
              sound (suc number) (cumulative + a.backoff_ms) (attempts ++ a ∷ []) e
                (retried-Progress setup retry permit case_id iteration deadline number cumulative
                  r.now_after attempts tried p account yes_retry)
                (rw (yes_retry, go) at h)
        ]
        | inr no_retry ↦
            subst
              (λ x.
                IsHistory retry permit x.attempts
                × ((is_some x.error ≡ true) ⊎ (is_some x.response ≡ true)))
              (eq_of_ended-eq (rw no_retry at h))
              (
                final-IsHistory setup retry permit case_id iteration deadline number cumulative
                    r.now_after attempts tried p account no_retry,
                account.answered_or_failed,
              )
      ]

  -- From any point of the loop on.
  pub attempt_loop-Sound :
      (env : ℕ → Reading) (fuel : ℕ)
      → Sound (attempt_loop setup retry permit case_id iteration deadline env fuel)
  unfolding attempt_loop
  attempt_loop-Sound env zero number cumulative attempts e p h = cc
  attempt_loop-Sound env (suc fuel) number cumulative attempts e p h =
      settle-Sound (attempt_loop setup retry permit case_id iteration deadline env fuel) number
        cumulative attempts (env number)
        (try_once setup retry permit case_id iteration deadline number (env number)) e
        (attempt_loop-Sound env fuel) p (try_once-IsAccount number (env number)) h

  settle_total :
      (again : ℕ → ℕ → List AttemptResult → Loop) (number cumulative : ℕ)
      (attempts : List AttemptResult) (r : Reading) (answer : Option Tried)
      → (suc number ≤ most_attempts retry permit
          → (cumulative' : ℕ) (attempts' : List AttemptResult)
          → again (suc number) cumulative' attempts' ≢ exhausted)
      → settle setup retry permit case_id iteration deadline again number cumulative attempts r
          answer
        ≢ exhausted
  unfolding settle
  settle_total again number cumulative attempts r none next h = cc
  settle_total again number cumulative attempts r (some tried) next h =
      let a =
        decided setup retry permit case_id iteration deadline number cumulative r.now_after tried in
      elim (Bool-cases (is_retry a.retry_decision)) [
        | inl yes_retry ↦ elim (Bool-cases (r.stopped_after || r.stopped_in_backoff)) [
          | inl stop ↦ let wrong : cancelled ≡ exhausted = rw (yes_retry, stop) at h in cc
          | inr go ↦
              let (error, _, why) =
                decided-IsRetry setup retry permit case_id iteration deadline number cumulative
                  r.now_after tried yes_retry in
              let (more, _) =
                IsRetry-bounds retry permit number cumulative (deadline - r.now_after) error
                  a.retry_decision a.backoff_ms why in
              next more (cumulative + a.backoff_ms) (attempts ++ a ∷ []) (rw (yes_retry, go) at h)
        ]
        | inr no_retry ↦ ended≢exhausted (rw no_retry at h)
      ]

  -- Fuel for the attempts that are left is enough: the loop ends or is cancelled.
  pub attempt_loop_total :
      (env : ℕ → Reading) (fuel number cumulative : ℕ) (attempts : List AttemptResult)
      → most_attempts retry permit < fuel + number
      → number ≤ most_attempts retry permit
      → attempt_loop setup retry permit case_id iteration deadline env fuel number cumulative
          attempts
        ≢ exhausted
  unfolding attempt_loop
  attempt_loop_total env zero number cumulative attempts enough n = absurd (omega arith)
  attempt_loop_total env (suc fuel) number cumulative attempts enough n =
      settle_total (attempt_loop setup retry permit case_id iteration deadline env fuel) number
        cumulative attempts (env number)
        (try_once setup retry permit case_id iteration deadline number (env number))
        (λ more c xs. attempt_loop_total env fuel (suc number) c xs (omega arith) more)

-- When the loop of a case ends, with at least one attempt allowed: the attempts are numbered 1, 2, …
-- and are at most `max_attempts`, or 1 for a half-open probe or without a retry section; their
-- delays add up to at most `max_cumulative_backoff_ms`; every attempt but the last was marked for a
-- retry after a provider failure other than an open circuit, as an ambiguous one only where the
-- configuration allows that; and the last was not.
pub attempts_IsHistory :
    (setup : Setup) (retry : Option RetryConfig) (permit : CircuitPermit) (case_id : String)
    (iteration deadline : ℕ) (env : ℕ → Reading) (fuel : ℕ) (e : End)
    → 1 ≤ most_attempts retry permit
    → attempt_loop setup retry permit case_id iteration deadline env fuel 1 0 [] ≡ ended e
    → IsHistory retry permit e.attempts
attempts_IsHistory setup retry permit case_id iteration deadline env fuel e one h =
    (attempt_loop-Sound setup retry permit case_id iteration deadline env fuel 1 0 [] e
      (record {
        numbered = tt;
        counted = omega arith;
        within_attempts = one;
        spent = refl;
        within_backoff = omega arith;
        retried = tt;
      })
      h).0

-- With fuel for the allowed attempts the loop of a case terminates, whatever the adapter, the clock
-- and the stop event do.
pub attempts_terminate :
    (setup : Setup) (retry : Option RetryConfig) (permit : CircuitPermit) (case_id : String)
    (iteration deadline : ℕ) (env : ℕ → Reading) (fuel : ℕ)
    → 1 ≤ most_attempts retry permit
    → most_attempts retry permit ≤ fuel
    → attempt_loop setup retry permit case_id iteration deadline env fuel 1 0 [] ≢ exhausted
attempts_terminate setup retry permit case_id iteration deadline env fuel one enough =
    attempt_loop_total setup retry permit case_id iteration deadline env fuel 1 0 [] (omega arith)
      one
