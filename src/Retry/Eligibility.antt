-- ===== src/Retry/Eligibility.antt =====
-- retry.py: which failures are retried.
use agent_storm.Prelude.{true, false, ◌≡◌, ◌⊎◌, ◌↔◌, ◌≢◌, str_eq_iff, arith}
use agent_storm.Config.{RetryConfig}
use agent_storm.Errors.{ExecutionError}
use agent_storm.Retry.{is_retry, ambiguous_blocked, retry_ambiguous, retry_eligibility}

-- A failure is retried exactly when it is a provider failure other than an open circuit and is
-- either safe to retry or, where the configuration allows that, ambiguous. An ambiguous one that
-- the configuration stops is marked as blocked.
pub retry_eligibility_iff :
    (error : ExecutionError) (config : RetryConfig)
    → ((is_retry (retry_eligibility error config) ≡ true) ↔ (
        (error.category ≡ "provider")
        × (error.code ≢ "circuit_open")
        × ((error.safe_to_retry ≡ true)
            ⊎ ((error.ambiguous ≡ true) × (config.allow_ambiguous_retries ≡ true)))))
      × (retry_eligibility error config ≡ ambiguous_blocked
          → (error.ambiguous ≡ true) × (config.allow_ambiguous_retries ≡ false))
unfolding retry_eligibility
retry_eligibility_iff error config =
    ground (arith, str_eq_iff error.category "provider", str_eq_iff error.code "circuit_open")

pub allowed_of_ambiguous :
    (error : ExecutionError) (config : RetryConfig)
    → retry_eligibility error config ≡ retry_ambiguous
    → config.allow_ambiguous_retries ≡ true
unfolding retry_eligibility
allowed_of_ambiguous error config h = ground arith
