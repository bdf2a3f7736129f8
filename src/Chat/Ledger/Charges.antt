-- ===== src/Chat/Ledger/Charges.antt =====
-- openai_compatible.py: what a failed call is charged.
use agent_storm.Prelude.{ℕ, ◌+◌, ◌≤◌, ◌<◌, String, true, false, ◌≡◌, ◌↔◌, arith}
use agent_storm.Errors.{ExecutionError}
use agent_storm.Chat.Ledger.{Ledger, charge_unknown_call, ledger_error, status_error}

-- What the error of a non-200 status says about the ledger.
pub record IsCharged (status input output : ℕ) (before after : Ledger) (error : ExecutionError)
    : Type 0 where
  -- only a 429 may be repeated without a second charge
  pub safe : (error.safe_to_retry ≡ true) ↔ (status ≡ 429)
  -- an error is ambiguous exactly when one more call of unknown usage is counted
  pub counted : error.ambiguous ≡ true → after.unknown_calls ≡ before.unknown_calls + 1
  pub charged :
      error.ambiguous ≡ true
      → before.usage_known ≡ true
      → (after.input_tokens ≡ before.input_tokens + input)
        × (after.output_tokens ≡ before.output_tokens + output)
  pub free : error.ambiguous ≡ false → after ≡ before
  pub definite : error.ambiguous ≡ false → (400 ≤ status) × (status < 500)
  pub kept : (after.usage_known ≡ before.usage_known) × (after.model_calls ≡ before.model_calls)
  pub complete : error.usage_complete ≡ before.usage_known

-- A non-200 answer: only a 429 is safe to retry; an ambiguous error counts one call of unknown usage
-- and, while usage is known, charges the two allowances; any other error is a 4xx and leaves the
-- ledger as it was; and the error's usage is complete exactly when the ledger's is known.
pub status_error-IsCharged :
    (status : ℕ) (provider_code : String) (input output : ℕ) (l : Ledger)
    → let (error, after) = status_error status provider_code input output l in
      IsCharged status input output l after error
unfolding status_error charge_unknown_call ledger_error
status_error-IsCharged status provider_code input output l = ground arith
