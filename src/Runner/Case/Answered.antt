-- ===== src/Runner/Case/Answered.antt =====
-- runner.py: where the response of a loop without an error comes from.
use agent_storm.Prelude.{
  ℕ, suc, zero, String, ◌||◌, Option, none, some, List, ◌≡◌, refl, sym, ap, ◌∙◌, subst, Bool-cases,
  inl, inr, ◌==◌,
}
use agent_storm.Models.{AdapterResponse}
use agent_storm.Config.{RetryConfig}
use agent_storm.Errors.{ExecutionError}
use agent_storm.Retry.{is_retry}
use agent_storm.Circuit.{CircuitPermit}
use agent_storm.Runner.Records.{AttemptResult}
use agent_storm.Runner.Attempt.{Setup, Tried}
use agent_storm.Runner.Attempt.Answered.{Answers, invoke_attempt_answered}
use agent_storm.Runner.Case.{
  Reading, End, Loop, ended, with_permit_events, with_decision, decided, settle, try_once,
  attempt_loop,
}

eq_of_ended-eq : {e f : End} → ended e ≡ ended f → e ≡ f
eq_of_ended-eq h = cc

module _ (setup : Setup) (case_id : String) (iteration : ℕ) (env : ℕ → Reading) where
  -- The adapter's answer in some attempt is the response, with its tools and its duration.
  pub record IsAnswered (response : AdapterResponse) (tools : List String) (latency : ℕ)
      : Type 0 where
    pub number : ℕ
    pub answers : Answers setup case_id iteration number (env number).invocation response tools
    pub measured : latency ≡ (env number).invocation.duration

  abbrev pub HasAnswer : End → Type 0
  HasAnswer e =
      (response : AdapterResponse)
      → e.error ≡ none
      → e.response ≡ some response
      → IsAnswered response e.tools e.latency

module _ (setup : Setup) (retry : Option RetryConfig) (permit : CircuitPermit) (case_id : String)
    (iteration deadline : ℕ) where
  with_decision-latency :
      (number cumulative now : ℕ) (error : Option ExecutionError) (a : AttemptResult)
      → (with_decision setup retry permit case_id iteration deadline number cumulative now error
          a).latency
        ≡ a.latency
  unfolding with_decision
  with_decision-latency number cumulative now none a = refl
  with_decision-latency number cumulative now (some error) a = refl

  with_permit_events-latency :
      (number : ℕ) (a : AttemptResult)
      → (with_permit_events setup retry permit case_id iteration deadline number a).latency
        ≡ a.latency
  unfolding with_permit_events
  with_permit_events-latency number a = elim (Bool-cases (number == 1)) [
    | inl e ↦ rw e refl
    | inr e ↦ rw e refl
  ]

  decided-latency :
      (number cumulative now : ℕ) (tried : Tried)
      → (decided setup retry permit case_id iteration deadline number cumulative now tried).latency
        ≡ tried.attempt.latency
  unfolding decided
  decided-latency number cumulative now tried =
      with_decision-latency number cumulative now tried.error _
      ∙ with_permit_events-latency number tried.attempt

  module _ (env : ℕ → Reading) where
    try_once-IsAnswered :
        (number : ℕ) (tried : Tried) (response : AdapterResponse)
        → try_once setup retry permit case_id iteration deadline number (env number) ≡ some tried
        → tried.error ≡ none
        → tried.response ≡ some response
        → IsAnswered setup case_id iteration env response tried.tools tried.attempt.latency
    unfolding try_once
    try_once-IsAnswered number tried response h e r =
        elim (Bool-cases (env number).stopped_before) [
          | inl s ↦ let wrong = rw s at h in cc
          | inr s ↦
              let (answers, latency) =
                invoke_attempt_answered setup case_id iteration number _ _ tried response
                  (rw s at h) e r in
              record { number = number; answers = answers; measured = latency }
        ]

    settle_answered :
        (again : ℕ → ℕ → List AttemptResult → Loop) (number cumulative : ℕ)
        (attempts : List AttemptResult) (answer : Option Tried) (e : End)
        → ((n c : ℕ) (l : List AttemptResult)
            → again n c l ≡ ended e
            → HasAnswer setup case_id iteration env e)
        → ((tried : Tried) (response : AdapterResponse)
            → answer ≡ some tried
            → tried.error ≡ none
            → tried.response ≡ some response
            → IsAnswered setup case_id iteration env response tried.tools tried.attempt.latency)
        → settle setup retry permit case_id iteration deadline again number cumulative attempts
            (env number)
            answer
          ≡ ended e
        → HasAnswer setup case_id iteration env e
    unfolding settle
    settle_answered again number cumulative attempts none e rest here h response none_left r = cc
    settle_answered again number cumulative attempts (some tried) e rest here h response none_left
          r =
        let a =
          decided setup retry permit case_id iteration deadline number cumulative
            (env number).now_after tried in
        elim (Bool-cases (is_retry a.retry_decision)) [
          | inl t ↦
              elim (Bool-cases ((env number).stopped_after || (env number).stopped_in_backoff)) [
                | inl s ↦ let wrong = rw (t, s) at h in cc
                | inr s ↦ rest _ _ _ (rw (t, s) at h) response none_left r
              ]
          | inr t ↦
              let same = eq_of_ended-eq (rw t at h) in
              let given =
                here tried response refl (ap (λ x. x.error) same ∙ none_left)
                  (ap (λ x. x.response) same ∙ r) in
              record {
                number = given.number;
                answers =
                    subst
                      (λ tools.
                        Answers setup case_id iteration given.number (env given.number).invocation
                          response tools)
                      (ap (λ x. x.tools) same) given.answers;
                measured =
                    sym (ap (λ x. x.latency) same)
                    ∙ decided-latency number cumulative (env number).now_after tried
                    ∙ given.measured;
              }
        ]

    pub attempt_loop_answered :
        (fuel number cumulative : ℕ) (attempts : List AttemptResult) (e : End)
        → attempt_loop setup retry permit case_id iteration deadline env fuel number cumulative
            attempts
          ≡ ended e
        → HasAnswer setup case_id iteration env e
    unfolding attempt_loop
    attempt_loop_answered zero number cumulative attempts e h = cc
    attempt_loop_answered (suc fuel) number cumulative attempts e h =
        settle_answered (attempt_loop setup retry permit case_id iteration deadline env fuel) number
          cumulative attempts _ e (λ n c l. attempt_loop_answered fuel n c l e)
          (try_once-IsAnswered number) h
