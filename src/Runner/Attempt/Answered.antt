-- ===== src/Runner/Attempt/Answered.antt =====
-- runner.py: where the response of an attempt without an error comes from.
use agent_storm.Prelude.{
  ℕ, String, Option, none, some, List, ◌≡◌, refl, ap, Bool-cases, eq_of_some-eq, inl, inr, ◌==◌,
}
use agent_storm.Models.{AdapterResponse}
use agent_storm.Adapters.{Outcome, answered, raised}
use agent_storm.Faults.{run_with_faults}
use agent_storm.Runner.Attempt.{
  Permit, admitted, stopped, refused, Interrupt, timed_out, cancelled, Setup, Tried, Invocation,
  cut_short, guarded, call_adapter, response_of, error_of, build_attempt, finish_attempt,
  invoke_attempt,
}

cut_short_answered :
    (interrupt : Option Interrupt) (recorded : ℕ) (result : Outcome × List String)
    (response : AdapterResponse) (tools : List String)
    → cut_short interrupt recorded result ≡ some (answered response, tools)
    → result ≡ (answered response, tools)
unfolding cut_short
cut_short_answered none recorded result response tools h = cc
cut_short_answered (some timed_out) recorded (outcome, started) response tools h = cc
cut_short_answered (some cancelled) recorded result response tools h = cc

guarded_answered :
    (permit : Permit) (result : Option (Outcome × List String)) (response : AdapterResponse)
    (tools : List String)
    → guarded permit result ≡ some (answered response, tools)
    → result ≡ some (answered response, tools)
unfolding guarded
guarded_answered admitted result response tools h = h
guarded_answered stopped result response tools h = cc
guarded_answered (refused error) result response tools h = cc

module _ (setup : Setup) (case_id : String) (iteration : ℕ) where
  -- In an attempt, the adapter under fault injection answers after these tools.
  abbrev pub Answers : (number : ℕ) → Invocation → AdapterResponse → List String → Type 0
  Answers number inv response tools =
      run_with_faults setup.digest_number setup.scenario setup.seed case_id iteration number inv.run
      ≡ (answered response, tools)

  call_adapter_answered :
      (number remaining : ℕ) (inv : Invocation) (response : AdapterResponse) (tools : List String)
      → call_adapter setup case_id iteration number remaining inv ≡ some (answered response, tools)
      → Answers number inv response tools
  unfolding call_adapter
  call_adapter_answered number remaining inv response tools h = elim (Bool-cases (remaining == 0)) [
    | inl e ↦ let wrong = rw e at h in cc
    | inr e ↦ elim (Bool-cases setup.limited) [
      | inl l ↦
          cut_short_answered inv.interrupt inv.recorded _ response tools
            (guarded_answered inv.permit _ response tools (rw (e, l) at h))
      | inr l ↦ cut_short_answered inv.interrupt inv.recorded _ response tools (rw (e, l) at h)
    ]
  ]

  finish_attempt_answered :
      (number duration : ℕ) (result : Option (Outcome × List String)) (tried : Tried)
      (response : AdapterResponse)
      → finish_attempt setup number duration result ≡ some tried
      → tried.error ≡ none
      → tried.response ≡ some response
      → (result ≡ some (answered response, tried.tools)) × (tried.attempt.latency ≡ duration)
  unfolding finish_attempt response_of error_of build_attempt
  finish_attempt_answered number duration none tried response h e r = cc
  finish_attempt_answered number duration (some (answered given, tools)) tried response h e r = (
    rw (← eq_of_some-eq h)
        (ap (λ x. some (answered x, tools)) (eq_of_some-eq (rw (← eq_of_some-eq h) at r))),
    rw (← eq_of_some-eq h) refl,
  )
  finish_attempt_answered number duration (some (raised exc, tools)) tried response h e r =
      let wrong = rw (← eq_of_some-eq h) at e in cc

  -- An attempt that has a response and no error has the one that the adapter answered.
  pub invoke_attempt_answered :
      (number remaining : ℕ) (inv : Invocation) (tried : Tried) (response : AdapterResponse)
      → invoke_attempt setup case_id iteration number remaining inv ≡ some tried
      → tried.error ≡ none
      → tried.response ≡ some response
      → Answers number inv response tried.tools × (tried.attempt.latency ≡ inv.duration)
  unfolding invoke_attempt
  invoke_attempt_answered number remaining inv tried response h e r =
      let (called, latency) = finish_attempt_answered number inv.duration _ tried response h e r in
      (call_adapter_answered number remaining inv response tried.tools called, latency)
