-- ===== src/Runner/Case/Attempts.antt =====
-- runner.py: what holds of the attempts of a case when the loop ends, and that it ends.
use agent_storm.Prelude.{
  ℕ, suc, ◌+◌, ◌-◌, ◌≤◌, String, Bool, true, false, Option, none, some, List, [], ◌∷◌, ◌++◌, ◌≡◌,
  ◌≢◌, refl, sym, subst, ap, ◌∙◌, arith, length, length-append, sum_of, sum_of-append, All,
  All-append, if◌then◌else◌, eq_of_some-eq,
}
use agent_storm.Config.{RetryConfig}
use agent_storm.Errors.{ExecutionError}
use agent_storm.Retry.{Decision, is_retry, retry_ambiguous}
use agent_storm.Retry.Eligibility.{retry_eligibility_iff, allowed_of_ambiguous}
use agent_storm.Circuit.{CircuitPermit}
use agent_storm.Runner.Records.{AttemptResult}
use agent_storm.Runner.Attempt.{Setup, Tried, of_error}
use agent_storm.Runner.Attempt.Accounts.{IsAccount}
use agent_storm.Runner.Case.{decided, with_permit_events}
use agent_storm.Runner.Case.Decisions.{
  IsRetry, with_decision-IsRetry, with_decision_final, with_decision_keeps,
  with_permit_events_keeps,
}

-- The attempts that a case may make: one without a retry section and for a probe.
abbrev pub most_attempts : Option RetryConfig → CircuitPermit → ℕ
most_attempts none permit = 1
most_attempts (some config) permit = if permit.probe then 1 else config.max_attempts

abbrev pub most_backoff : Option RetryConfig → ℕ
most_backoff none = 0
most_backoff (some config) = config.max_cumulative_backoff_ms

abbrev pub allows_ambiguous : Option RetryConfig → Bool
allows_ambiguous none = false
allows_ambiguous (some config) = config.allow_ambiguous_retries

abbrev pub IsNumbered : ℕ → List AttemptResult → Type 0
IsNumbered k [] = Unit
IsNumbered k (a ∷ attempts) = (a.number ≡ k) × IsNumbered (suc k) attempts

IsNumbered-append :
    (k n : ℕ) (attempts : List AttemptResult) (a : AttemptResult)
    → IsNumbered k attempts
    → k + length attempts ≡ n
    → a.number ≡ n
    → IsNumbered k (attempts ++ a ∷ [])
IsNumbered-append k n [] a h e m = (m ∙ (omega arith), tt)
IsNumbered-append k n (x ∷ attempts) a h e m =
    (h.0, IsNumbered-append (suc k) n attempts a h.1 (omega arith) m)

-- An attempt after which another one was made.
pub record WasRetried (retry : Option RetryConfig) (a : AttemptResult) : Type 0 where
  pub retried : is_retry a.retry_decision ≡ true
  pub category : a.failure_category ≡ "provider"
  pub code : a.error_code ≢ "circuit_open"
  pub allowed : a.retry_decision ≡ retry_ambiguous → allows_ambiguous retry ≡ true

-- What holds before attempt `number`.
pub record Progress (retry : Option RetryConfig) (permit : CircuitPermit) (number cumulative : ℕ)
    (attempts : List AttemptResult) : Type 0 where
  pub numbered : IsNumbered 1 attempts
  pub counted : 1 + length attempts ≡ number
  pub within_attempts : number ≤ most_attempts retry permit
  pub spent : sum_of (λ a. a.backoff_ms) attempts ≡ cumulative
  pub within_backoff : cumulative ≤ most_backoff retry
  pub retried : All (WasRetried retry) attempts

-- What holds of all attempts of a case that has ended.
pub record IsHistory (retry : Option RetryConfig) (permit : CircuitPermit)
    (attempts : List AttemptResult) : Type 0 where
  pub before : List AttemptResult
  pub last : AttemptResult
  pub split : attempts ≡ before ++ last ∷ []
  pub numbered : IsNumbered 1 attempts
  pub within_attempts : length attempts ≤ most_attempts retry permit
  pub within_backoff : sum_of (λ a. a.backoff_ms) attempts ≤ most_backoff retry
  pub retried : All (WasRetried retry) before
  pub final : is_retry last.retry_decision ≡ false

pub IsRetry-bounds :
    (retry : Option RetryConfig) (permit : CircuitPermit) (number cumulative left : ℕ)
    (error : ExecutionError) (decision : Decision) (backoff : ℕ)
    → IsRetry retry permit number cumulative left error decision backoff
    → (suc number ≤ most_attempts retry permit) × (cumulative + backoff ≤ most_backoff retry)
IsRetry-bounds none permit number cumulative left error decision backoff r =
    absurd (none≢some r.configured)
  where
    none≢some : none ≡ some r.config → ⊥
    none≢some h = cc
IsRetry-bounds (some config) permit number cumulative left error decision backoff r = rw r.plain (
  subst (λ c. suc number ≤ c.max_attempts) (sym (eq_of_some-eq r.configured)) r.within_attempts,
  subst (λ c. cumulative + backoff ≤ c.max_cumulative_backoff_ms) (sym (eq_of_some-eq r.configured))
      r.within_budget,
)

module _ (setup : Setup) (retry : Option RetryConfig) (permit : CircuitPermit) (case_id : String)
    (iteration deadline : ℕ) where
  decided-number :
      (number cumulative now : ℕ) (tried : Tried)
      → IsAccount number tried
      → (decided setup retry permit case_id iteration deadline number cumulative now tried).number
        ≡ number
  unfolding decided
  decided-number number cumulative now tried acc =
      (with_decision_keeps setup permit case_id iteration deadline retry number cumulative now
        tried.error _).0
      ∙ (with_permit_events_keeps setup permit case_id iteration deadline retry number
          tried.attempt).0
      ∙ acc.numbered

  decided-no_backoff :
      (number cumulative now : ℕ) (tried : Tried)
      → IsAccount number tried
      → let a = decided setup retry permit case_id iteration deadline number cumulative now tried in
        is_retry a.retry_decision ≡ false → a.backoff_ms ≡ 0
  unfolding decided
  decided-no_backoff number cumulative now tried acc h =
      with_decision_final setup permit case_id iteration deadline retry number cumulative now
        tried.error _
        ((with_permit_events_keeps setup permit case_id iteration deadline retry number
            tried.attempt).4
          ∙ acc.no_backoff)
        h

  pub decided-IsRetry :
      (number cumulative now : ℕ) (tried : Tried)
      → let a = decided setup retry permit case_id iteration deadline number cumulative now tried in
        is_retry a.retry_decision ≡ true
        → (error : ExecutionError) × (tried.error ≡ some error)
          × IsRetry retry permit number cumulative
              (deadline - now)
              error
              a.retry_decision
              a.backoff_ms
  unfolding decided
  decided-IsRetry number cumulative now tried h =
      with_decision-IsRetry setup permit case_id iteration deadline retry number cumulative now
        tried.error _ h

  decided-texts :
      (number cumulative now : ℕ) (tried : Tried) (error : ExecutionError)
      → IsAccount number tried
      → tried.error ≡ some error
      → let a = decided setup retry permit case_id iteration deadline number cumulative now tried in
        (a.failure_category ≡ error.category) × (a.error_code ≡ error.code)
  unfolding decided
  decided-texts number cumulative now tried error acc e =
      let (_, c, d, _) =
        with_decision_keeps setup permit case_id iteration deadline retry number cumulative now
          tried.error
          (with_permit_events setup retry permit case_id iteration deadline number tried.attempt) in
      let (_, c', d', _, _) =
        with_permit_events_keeps setup permit case_id iteration deadline retry number
          tried.attempt in
      (
        c ∙ c' ∙ acc.category ∙ ap (of_error (λ x. x.category) "") e,
        d ∙ d' ∙ acc.code ∙ ap (of_error (λ x. x.code) "") e,
      )

  decided-WasRetried :
      (number cumulative now : ℕ) (tried : Tried)
      → IsAccount number tried
      → let a = decided setup retry permit case_id iteration deadline number cumulative now tried in
        is_retry a.retry_decision ≡ true → WasRetried retry a
  decided-WasRetried number cumulative now tried acc h =
      let (error, e, r) = decided-IsRetry number cumulative now tried h in
      let (category, code) = decided-texts number cumulative now tried error acc e in
      let (provider, closed_circuit, _) = (retry_eligibility_iff error r.config).0.0 r.eligible in
      record {
        retried = h;
        category = category ∙ provider;
        code = λ open_circuit. closed_circuit (sym code ∙ open_circuit);
        allowed = λ ambiguous.
            rw r.configured (allowed_of_ambiguous error r.config (sym r.decided ∙ ambiguous));
      }

  -- A retried attempt keeps the progress.
  pub retried-Progress :
      (number cumulative now : ℕ) (attempts : List AttemptResult) (tried : Tried)
      → Progress retry permit number cumulative attempts
      → IsAccount number tried
      → let a = decided setup retry permit case_id iteration deadline number cumulative now tried in
        is_retry a.retry_decision ≡ true
        → Progress retry permit (suc number) (cumulative + a.backoff_ms) (attempts ++ a ∷ [])
  retried-Progress number cumulative now attempts tried p acc h =
      let a = decided setup retry permit case_id iteration deadline number cumulative now tried in
      let (error, e, r) = decided-IsRetry number cumulative now tried h in
      let (n, c) =
        IsRetry-bounds retry permit number cumulative (deadline - now) error a.retry_decision
          a.backoff_ms r in
      record {
        numbered =
            IsNumbered-append 1 number attempts a p.numbered p.counted
              (decided-number number cumulative now tried acc);
        counted = omega (arith, length-append attempts (a ∷ []), p.counted);
        within_attempts = n;
        spent = omega (arith, sum_of-append (λ x. x.backoff_ms) attempts (a ∷ []), p.spent);
        within_backoff = c;
        retried =
            All-append (WasRetried retry) attempts (a ∷ []) p.retried
              (decided-WasRetried number cumulative now tried acc h, tt);
      }

  -- An attempt that is not retried completes the history.
  pub final-IsHistory :
      (number cumulative now : ℕ) (attempts : List AttemptResult) (tried : Tried)
      → Progress retry permit number cumulative attempts
      → IsAccount number tried
      → let a = decided setup retry permit case_id iteration deadline number cumulative now tried in
        is_retry a.retry_decision ≡ false → IsHistory retry permit (attempts ++ a ∷ [])
  final-IsHistory number cumulative now attempts tried p acc h =
      let a = decided setup retry permit case_id iteration deadline number cumulative now tried in
      let none_more = decided-no_backoff number cumulative now tried acc h in
      record {
        before = attempts;
        last = a;
        split = refl;
        numbered =
            IsNumbered-append 1 number attempts a p.numbered p.counted
              (decided-number number cumulative now tried acc);
        within_attempts =
            omega (arith, length-append attempts (a ∷ []), p.counted, p.within_attempts);
        within_backoff = omega (
          arith,
          sum_of-append (λ x. x.backoff_ms) attempts (a ∷ []),
          p.spent,
          p.within_backoff,
          none_more,
        );
        retried = p.retried;
        final = h;
      }
