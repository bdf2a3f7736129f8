-- ===== src/Runner/Attempt/Accounts.antt =====
-- runner.py: what the record of an attempt says of the attempt.
use agent_storm.Prelude.{
  ℕ, String, true, false, Option, none, some, List, ◌≡◌, refl, subst, ◌⊎◌, inl, inr, eq_of_some-eq,
  is_some,
}
use agent_storm.Adapters.{Outcome, answered, raised}
use agent_storm.Runner.Attempt.{
  Setup, Invocation, Tried, invoke_attempt, finish_attempt, call_adapter, of_error,
}

-- The record of an attempt against its error and its response.
pub record IsAccount (number : ℕ) (tried : Tried) : Type 0 where
  pub numbered : tried.attempt.number ≡ number
  pub no_backoff : tried.attempt.backoff_ms ≡ 0
  pub category : tried.attempt.failure_category ≡ of_error (λ e. e.category) "" tried.error
  pub code : tried.attempt.error_code ≡ of_error (λ e. e.code) "" tried.error
  pub ambiguous : tried.attempt.ambiguous ≡ of_error (λ e. e.ambiguous) false tried.error
  -- without an error there is a response
  pub answered_or_failed : (is_some tried.error ≡ true) ⊎ (is_some tried.response ≡ true)

build_IsAccount :
    (setup : Setup) (number duration : ℕ) (result : Outcome × List String) (tried : Tried)
    → finish_attempt setup number duration (some result) ≡ some tried
    → IsAccount number tried
unfolding finish_attempt
build_IsAccount setup number duration (answered response, tools) tried h =
    subst (IsAccount number) (eq_of_some-eq h) (record {
      numbered = refl;
      no_backoff = refl;
      category = refl;
      code = refl;
      ambiguous = refl;
      answered_or_failed = inr refl;
    })
build_IsAccount setup number duration (raised exc, tools) tried h =
    subst (IsAccount number) (eq_of_some-eq h) (record {
      numbered = refl;
      no_backoff = refl;
      category = refl;
      code = refl;
      ambiguous = refl;
      answered_or_failed = inl refl;
    })

finish_IsAccount :
    (setup : Setup) (number duration : ℕ) (result : Option (Outcome × List String)) (tried : Tried)
    → finish_attempt setup number duration result ≡ some tried
    → IsAccount number tried
unfolding finish_attempt
finish_IsAccount setup number duration none tried h = cc
finish_IsAccount setup number duration (some result) tried h =
    build_IsAccount setup number duration result tried h

-- An attempt that was not cancelled carries its number and, if it failed, the category, the code and
-- the ambiguity of its error; it has no delay yet, and it ended with an error or with a response.
pub invoke_attempt-IsAccount :
    (setup : Setup) (case_id : String) (iteration number remaining : ℕ) (inv : Invocation)
    (tried : Tried)
    → invoke_attempt setup case_id iteration number remaining inv ≡ some tried
    → IsAccount number tried
unfolding invoke_attempt
invoke_attempt-IsAccount setup case_id iteration number remaining inv tried h =
    finish_IsAccount setup number inv.duration
      (call_adapter setup case_id iteration number remaining inv) tried h
