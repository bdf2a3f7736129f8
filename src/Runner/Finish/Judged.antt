-- ===== src/Runner/Finish/Judged.antt =====
-- runner.py with the registry of evaluators.py: when a case succeeds.
use agent_storm.Prelude.{
  and_true, ℕ, zero, suc, ◌-◌, ◌+◌, ◌*◌, String, true, false, Option, none, some, List, [], ◌∷◌,
  ◌≡◌, refl, ap, ◌∙◌, subst, update, keep, starts_with, map, All, all_of, get_elem?, eq_of_some-eq,
}
use agent_storm.Models.{
  AdapterResponse, AssertionSpec, AssertionOutcome, TestCase, effective_assertions,
}
use agent_storm.Config.{PricingConfig, RunConfig}
use agent_storm.Config.Readers.{are_unique}
use agent_storm.Errors.{ExecutionError}
use agent_storm.Circuit.{CircuitPermit, CircuitBreaker, Acquired, granted, acquire}
use agent_storm.Circuit
use agent_storm.Pricing.{Costs}
use agent_storm.Evaluators.{Libraries, EvaluationContext, Registry, registry_of, evaluate}
use agent_storm.Evaluators.Verdicts.{Meets, AreVerdicts, evaluate-AreVerdicts}
use agent_storm.Runner.Records.{AttemptResult, CaseResult}
use agent_storm.Runner.Attempt.{Setup}
use agent_storm.Runner.Usage.{attempt_usage, costs_for_usage}
use agent_storm.Runner.Case.Answered.{IsAnswered, HasAnswer, attempt_loop_answered}
use agent_storm.Runner.Case.{Reading, End, Loop, exhausted, cancelled, ended}
use agent_storm.Runner.Finish.{
  completed, priced, failed_by, judged_by, failed_result, judge, judge_outcomes, finish_case,
  start_case, execute_permitted_case, execute_case, Times, section,
}

priced_inverse :
    (costs : Option Costs) (make : Costs → CaseResult) (result : CaseResult)
    → priced costs make ≡ completed result
    → (c : Costs) × (make c ≡ result)
unfolding priced
priced_inverse none make result h = cc
priced_inverse (some c) make result h = (c, cc)

-- The metadata of the case and the adapter's `agentstorm.` entries.
unfoldable pub evaluation_context : TestCase → AdapterResponse → List String → ℕ → EvaluationContext
evaluation_context test response tools latency = record {
  case_id = test.case_id;
  prompt = test.prompt;
  output = response.output;
  latency = latency;
  tool_path = tools;
  metadata = update test.metadata (keep (λ (k, v). starts_with "agentstorm." k) response.metadata);
}

module _ {Pattern Validator Function : Type 0}
    (libraries : Libraries Pattern Validator Function) where
  -- The evaluators as the case calls them.
  unfoldable pub evaluators :
      Registry libraries
      → TestCase
      → AdapterResponse
      → List String
      → ℕ
      → Option (List AssertionOutcome)
  evaluators r test response tools latency =
      some (evaluate libraries r test (evaluation_context test response tools latency))

  -- A successful case had a response: what the adapter, under fault injection, answered in one of the
  -- attempts, with the tools of that attempt and the duration that was measured of it. The output is
  -- its output, and with these tools and this latency it meets every assertion.
  pub record IsEarned (setup : Setup) (iteration : ℕ) (env : ℕ → Reading) (test : TestCase)
      (result : CaseResult) : Type 0 where
    pub response : AdapterResponse
    pub latency : ℕ
    pub answered : IsAnswered setup test.case_id iteration env response result.tool_path latency
    pub output : result.output ≡ response.output
    pub met :
        All
          (λ spec. Meets libraries spec (evaluation_context test response result.tool_path latency))
          (effective_assertions test)

  passed_all :
      (context : EvaluationContext) (i : ℕ) (specs : List AssertionSpec)
      (outcomes : List AssertionOutcome)
      → AreVerdicts libraries context i specs outcomes
      → all_of (λ o. o.passed) outcomes ≡ true
      → All (λ spec. Meets libraries spec context) specs
  passed_all context i [] [] v h = tt
  passed_all context i (spec ∷ specs) [] v h = absurd v
  passed_all context i [] (o ∷ outcomes) v h = absurd v
  passed_all context i (spec ∷ specs) (o ∷ outcomes) (v, rest) h =
      let (p, ps) = and_true o.passed (all_of (λ o. o.passed) outcomes) h in
      (v.meets.0 p, passed_all context (suc i) specs outcomes rest ps)

  module _ (setup : Setup) (iteration : ℕ) (env : ℕ → Reading) (r : Registry libraries)
      (test : TestCase)
      (verdicts : (context : EvaluationContext)
        → AreVerdicts libraries context 0
            (effective_assertions test)
            (evaluate libraries r test context)) where
    failed_result-IsEarned :
        (pricing : Option PricingConfig) (error : ExecutionError) (attempts : List AttemptResult)
        (tools : List String) (latency : ℕ) (result : CaseResult)
        → failed_result pricing test.case_id iteration error attempts tools latency
          ≡ completed result
        → result.success ≡ true
        → IsEarned setup iteration env test result
    unfolding failed_result failed_by
    failed_result-IsEarned pricing error attempts tools latency result h s =
        let (c, e) =
          priced_inverse (costs_for_usage pricing (attempt_usage attempts))
            (failed_by test.case_id iteration error attempts tools latency) result h in
        let wrong : false ≡ true = ap (λ x. x.success) e ∙ s in cc

    judged_by-IsEarned :
        (response : AdapterResponse) (provider_latency : ℕ) (outcomes : List AssertionOutcome)
        (attempts : List AttemptResult) (tools : List String) (latency : ℕ) (costs : Costs)
        (result : CaseResult)
        → judged_by test.case_id iteration response.output outcomes attempts tools latency costs
          ≡ result
        → result.success ≡ true
        → AreVerdicts libraries
            (evaluation_context test response tools provider_latency)
            0
            (effective_assertions test)
            outcomes
        → IsAnswered setup test.case_id iteration env response tools provider_latency
        → IsEarned setup iteration env test result
    unfolding judged_by
    judged_by-IsEarned response p outcomes attempts tools latency costs result e s v a =
        subst (IsEarned setup iteration env test) e (record {
          response = response;
          latency = p;
          answered = a;
          output = refl;
          met =
              passed_all (evaluation_context test response tools p) 0 (effective_assertions test)
                outcomes v (ap (λ x. x.success) e ∙ s);
        })

    judge-IsEarned :
        (pricing : Option PricingConfig) (error : Option ExecutionError)
        (response : Option AdapterResponse) (provider_latency : ℕ) (attempts : List AttemptResult)
        (tools : List String) (latency : ℕ) (result : CaseResult)
        → judge pricing test.case_id iteration
            (evaluators r test)
            error
            response
            provider_latency
            attempts
            tools
            latency
          ≡ completed result
        → result.success ≡ true
        → ((given : AdapterResponse)
            → error ≡ none
            → response ≡ some given
            → IsAnswered setup test.case_id iteration env given tools provider_latency)
        → IsEarned setup iteration env test result
    unfolding judge evaluators judge_outcomes
    judge-IsEarned pricing (some error) response p attempts tools latency result h s a =
        failed_result-IsEarned pricing error attempts tools latency result h s
    judge-IsEarned pricing none none p attempts tools latency result h s a = cc
    judge-IsEarned pricing none (some response) p attempts tools latency result h s a =
        let context = evaluation_context test response tools p in
        let outcomes = evaluate libraries r test context in
        let (c, e) =
          priced_inverse (costs_for_usage pricing (attempt_usage attempts))
            (judged_by test.case_id iteration response.output outcomes attempts tools latency)
            result h in
        judged_by-IsEarned response p outcomes attempts tools latency c result e s
          (verdicts context) (a response refl refl)

    finish_case-IsEarned :
        (config : RunConfig) (times : Times) (permit : CircuitPermit) (loop : Loop)
        (b : CircuitBreaker) (result : CaseResult)
        → (finish_case setup config test.case_id iteration
            (evaluators r test)
            times
            permit
            loop
            b).0
          ≡ completed result
        → result.success ≡ true
        → ((e : End) → loop ≡ ended e → HasAnswer setup test.case_id iteration env e)
        → IsEarned setup iteration env test result
    unfolding finish_case
    finish_case-IsEarned config times permit exhausted b result h s a = cc
    finish_case-IsEarned config times permit cancelled b result h s a = cc
    finish_case-IsEarned config times permit (ended e) b result h s a =
        judge-IsEarned config.target.pricing e.error e.response e.latency _ e.tools
          (times.at_end - times.case_started) result h s (a e refl)

    start_case-IsEarned :
        (config : RunConfig) (times : Times) (fuel : ℕ)
        (meanwhile : CircuitBreaker → CircuitBreaker) (answer : Acquired) (b : CircuitBreaker)
        (result : CaseResult)
        → (start_case setup config test.case_id iteration
            (evaluators r test)
            times
            env
            fuel
            meanwhile
            answer
            b).0
          ≡ completed result
        → result.success ≡ true
        → IsEarned setup iteration env test result
    unfolding start_case execute_permitted_case
    start_case-IsEarned config times fuel meanwhile (granted permit) b result h s =
        finish_case-IsEarned config times permit _ (meanwhile b) result h s (λ e.
          attempt_loop_answered setup (section (λ x. some x.retry) config) permit test.case_id
            iteration (times.case_started + config.workload.timeout_seconds * 1_000_000_000) env
            fuel 1 0 [] e)
    start_case-IsEarned config times fuel meanwhile (Circuit.rejected error) b result h s =
        failed_result-IsEarned config.target.pricing error _ [] _ result h s

All-at :
    {A : Type 0} (P : A → Type 0) (xs : List A) (i : ℕ) (x : A)
    → All P xs
    → get_elem? xs i ≡ some x
    → P x
All-at P [] i x a h = cc
All-at P (y ∷ ys) zero x a h = subst P (eq_of_some-eq h) a.0
All-at P (y ∷ ys) (suc i) x a h = All-at P ys i x a.1 h

-- With the registry of a dataset whose ids are distinct, a case of it is reported a success only
-- where the adapter, under fault injection, answered in one of the attempts, and that response meets
-- every assertion of the case with the tools of that attempt, which are the reported tool path, and
-- the duration that was measured of it; the reported output is that response's. Faults, retries, the
-- breaker and exceptions of the evaluators included.
pub execute_case-IsEarned :
    {Pattern Validator Function : Type 0} (libraries : Libraries Pattern Validator Function)
    (cases : List TestCase) (r : Registry libraries) (place : ℕ) (test : TestCase) (setup : Setup)
    (config : RunConfig) (iteration : ℕ) (times : Times) (env : ℕ → Reading) (fuel : ℕ)
    (meanwhile : CircuitBreaker → CircuitBreaker) (b : CircuitBreaker) (result : CaseResult)
    → are_unique (map (λ t. t.case_id) cases) ≡ true
    → registry_of libraries cases ≡ some r
    → get_elem? cases place ≡ some test
    → (execute_case setup config test.case_id iteration
        (evaluators libraries r test)
        times
        env
        fuel
        meanwhile
        b).0
      ≡ completed result
    → result.success ≡ true
    → IsEarned libraries setup iteration env test result
unfolding execute_case
execute_case-IsEarned libraries cases r place test setup config iteration times env fuel meanwhile b
      result u g at h s =
    let (answer, held) = acquire (section (λ x. x.circuit_breaker) config) times.at_acquire b in
    start_case-IsEarned libraries setup iteration env r test
      (All-at _ cases place test (evaluate-AreVerdicts libraries cases r u g) at) config times fuel
      meanwhile answer held result h s
