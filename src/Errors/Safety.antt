-- ===== src/Errors/Safety.antt =====
-- execution_errors.py: what the flags of a classified exception say.
use agent_storm.Prelude.{
  Bool, true, false, Option, none, some, ◌≡◌, refl, arith, Bool-cases, inl, inr,
}
use agent_storm.Errors.{
  ExecutionError, Raised, Installed, timeout_error, classify_agents_exception,
  classify_openai_exception, classify_unmapped, classify_foreign, classify_by,
  classify_adapter_exception,
}

-- What the retry decision and the accounting rely on.
pub record IsForeign (error : ExecutionError) : Type 0 where
  pub exclusive : error.safe_to_retry ≡ true → error.ambiguous ≡ false
  pub limited : error.safe_to_retry ≡ true → error.code ≡ "rate_limited"
  pub uncounted : error.usage_complete ≡ false
  pub unanswered : error.response ≡ none
  pub uninjected : error.injected_rule ≡ ""

agents-IsForeign :
    (known : Bool) (exc : Raised) (error : ExecutionError)
    → classify_agents_exception known exc ≡ some error
    → IsForeign error
unfolding classify_agents_exception
agents-IsForeign false exc error h = cc
agents-IsForeign true exc error h = ground arith

openai-IsForeign :
    (known : Bool) (exc : Raised) (error : ExecutionError)
    → classify_openai_exception known exc ≡ some error
    → IsForeign error
unfolding classify_openai_exception
openai-IsForeign false exc error h = cc
openai-IsForeign true exc error h = ground arith

unmapped-IsForeign :
    (first second : Option ExecutionError)
    → ((e : ExecutionError) → first ≡ some e → IsForeign e)
    → ((e : ExecutionError) → second ≡ some e → IsForeign e)
    → IsForeign (classify_unmapped first second)
unfolding classify_unmapped
unmapped-IsForeign (some e) second h k = h e refl
unmapped-IsForeign none (some e) h k = k e refl
unmapped-IsForeign none none h k = ground arith

classify_foreign-IsForeign :
    (installed : Installed) (exc : Raised) → IsForeign (classify_foreign installed exc)
unfolding classify_foreign
classify_foreign-IsForeign installed exc = elim (Bool-cases (exc.is_instance timeout_error)) [
  | inl e ↦ rw e (ground arith)
  | inr e ↦ rw e (
      unmapped-IsForeign (classify_agents_exception installed.agents exc)
        (classify_openai_exception installed.openai exc) (agents-IsForeign installed.agents exc)
        (openai-IsForeign installed.openai exc))
]

by-IsForeign :
    (installed : Installed) (exc : Raised) (known : Option ExecutionError)
    → known ≡ none
    → IsForeign (classify_by installed exc known)
unfolding classify_by
by-IsForeign installed exc none h = classify_foreign-IsForeign installed exc
by-IsForeign installed exc (some error) h = cc

-- An exception that is no `ExecutionError`, whatever packages are installed and whatever its class:
-- it is never both safe to retry and ambiguous, only a rate limit is safe to retry, and neither a
-- response, nor complete usage, nor an injected rule is attributed to it. An `ExecutionError` is
-- returned as it is.
pub classify_safety :
    (installed : Installed) (exc : Raised)
    → ((error : ExecutionError)
        → exc.as_execution_error ≡ some error
        → classify_adapter_exception installed exc ≡ error)
      × (exc.as_execution_error ≡ none → IsForeign (classify_adapter_exception installed exc))
unfolding classify_adapter_exception
classify_safety installed exc =
    (λ error h. ground arith, by-IsForeign installed exc exc.as_execution_error)
