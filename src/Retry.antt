-- ===== src/Retry.antt =====
-- worker/src/agentstorm_worker/retry.py.
-- `digest_number` stands for the first eight bytes of the SHA-256 digest of a text, big endian.
-- Float arithmetic is exact on fractions; `draw` is over 2 ^ 64.
pub mod Backoff
pub mod Eligibility
use agent_storm.Prelude.{
  ℕ, suc, ◌+◌, ◌-◌, ◌*◌, ◌^◌, min, max, String, Bool, true, false, ◌||◌, not, Option, none, some,
  List, [], ◌∷◌, ◌==◌, str_eq, if◌then◌else◌, or_zero, decimal, join_nul, round_half_even,
}
use agent_storm.Config.{Ratio, RetryConfig}
use agent_storm.Errors.{ExecutionError}

-- The values of `retry_decision`.
pub data Decision : Type 0 where
  not_needed not_retryable retry_safe retry_ambiguous ambiguous_blocked : Decision
  half_open_no_retry attempt_limit backoff_budget time_budget : Decision

-- `decision.startswith("retry_")`
abbrev pub is_retry : Decision → Bool
is_retry retry_safe = true
is_retry retry_ambiguous = true
is_retry _ = false

-- The exponential delay under its cap. `failed_attempt` is at least 1.
unfoldable pub capped_backoff : RetryConfig → ℕ → ℕ
capped_backoff config failed_attempt =
    min (config.initial_backoff_ms * 2 ^ (failed_attempt - 1)) config.max_backoff_ms

-- `round(capped * factor)`, with factor = 1 - jitter + 2 * jitter * draw; a negative product, which
-- the source lifts to 0, is 0 here already.
unfoldable pub jittered : (capped : ℕ) → Ratio → (draw draws : ℕ) → ℕ
jittered capped jitter draw draws =
    let den = suc jitter.over in
    round_half_even
      (capped * (den * draws + 2 * jitter.numerator * draw - jitter.numerator * draws))
      (den * draws)

module _ (digest_number : String → ℕ) where
  jitter_draw : Option ℕ → String → ℕ → ℕ → ℕ
  jitter_draw seed case_id iteration failed_attempt = digest_number (
      join_nul (
        decimal (or_zero seed)
        ∷ case_id
        ∷ decimal iteration
        ∷ decimal failed_attempt
        ∷ "retry-jitter"
        ∷ []))

  -- `retry_backoff_ms`
  unfoldable pub retry_backoff_ms : RetryConfig → Option ℕ → String → ℕ → ℕ → ℕ
  unfolding jitter_draw
  retry_backoff_ms config seed case_id iteration failed_attempt =
      let capped = capped_backoff config failed_attempt in
      if config.jitter_ratio.numerator == 0
      then capped
      else min config.max_backoff_ms (
          jittered capped config.jitter_ratio (jitter_draw seed case_id iteration failed_attempt)
            (2 ^ 64))

-- `retry_eligibility`
unfoldable pub retry_eligibility : ExecutionError → RetryConfig → Decision
retry_eligibility error config =
    if not (str_eq error.category "provider") || str_eq error.code "circuit_open"
    then not_retryable
    else if error.safe_to_retry
    then retry_safe
    else if error.ambiguous
    then (if config.allow_ambiguous_retries then retry_ambiguous else ambiguous_blocked)
    else not_retryable
