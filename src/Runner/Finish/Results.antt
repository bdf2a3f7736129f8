-- ===== src/Runner/Finish/Results.antt =====
-- runner.py: what a finished case reports, on every path.
use agent_storm.Prelude.{
  ℕ, ◌-◌, String, true, false, Option, none, some, List, [], ◌≡◌, refl, subst, ap, arith, is_some,
  sum_of, all_of, or_zero,
}
use agent_storm.Models.{AdapterResponse, AssertionOutcome}
use agent_storm.Config.{PricingConfig, RunConfig}
use agent_storm.Errors.{ExecutionError, execution_error}
use agent_storm.Circuit.{CircuitPermit, CircuitBreaker, Acquired, granted, acquire, record_terminal}
use agent_storm.Circuit
use agent_storm.Pricing.{Costs, no_costs}
use agent_storm.Runner.Records.{AttemptResult, CaseResult}
use agent_storm.Runner.Attempt.{Setup}
use agent_storm.Runner.Usage.{Usage, attempt_usage, attempt_calls, costs_for_usage}
use agent_storm.Runner.Case.{Reading, Loop, exhausted, cancelled, ended}
use agent_storm.Runner.Finish.{
  completed, priced, failed_by, judged_by, failed_result, judge, judge_outcomes, finish_case,
  start_case, execute_permitted_case, execute_case, Times, section,
}

-- What a reader of a case result may rely on.
pub record IsConsistent (r : CaseResult) : Type 0 where
  pub passed :
      r.success ≡ true
      → (r.failure_kind ≡ "")
        × (r.failure_category ≡ "")
        × (r.error_code ≡ "")
        × (r.error ≡ none)
        × (all_of (λ o. o.passed) r.assertions ≡ true)
  pub explained : r.success ≡ false → is_some r.error ≡ true
  pub input_summed : r.input_tokens ≡ sum_of (λ a. or_zero a.input_tokens) r.attempts
  pub output_summed : r.output_tokens ≡ sum_of (λ a. or_zero a.output_tokens) r.attempts
  pub usage_joined : r.usage_complete ≡ all_of (λ a. a.usage_complete) r.attempts
  pub tools_summed : r.tool_call_count ≡ sum_of (λ a. a.tool_call_count) r.attempts
  pub unpriced :
      r.usage_complete ≡ false
      → (r.input_cost ≡ none) × (r.output_cost ≡ none) × (r.total_cost ≡ none)

costs_unpriced :
    (pricing : Option PricingConfig) (usage : Usage) (costs : Costs)
    → costs_for_usage pricing usage ≡ some costs
    → usage.usage_complete ≡ false
    → costs ≡ no_costs
unfolding costs_for_usage
costs_unpriced pricing usage costs h incomplete = ground arith

failed_by-IsConsistent :
    (pricing : Option PricingConfig) (case_id : String) (iteration : ℕ) (error : ExecutionError)
    (attempts : List AttemptResult) (tools : List String) (latency : ℕ) (costs : Costs)
    → costs_for_usage pricing (attempt_usage attempts) ≡ some costs
    → IsConsistent (failed_by case_id iteration error attempts tools latency costs)
unfolding failed_by attempt_usage attempt_calls
failed_by-IsConsistent pricing case_id iteration error attempts tools latency costs h = record {
  passed = λ s. cc;
  explained = λ s. refl;
  input_summed = refl;
  output_summed = refl;
  usage_joined = refl;
  tools_summed = refl;
  unpriced = λ u.
      let e = costs_unpriced pricing (attempt_usage attempts) costs h u in
      (ap (λ c. c.input_cost) e, ap (λ c. c.output_cost) e, ap (λ c. c.total_cost) e);
}

judged_by-IsConsistent :
    (pricing : Option PricingConfig) (case_id : String) (iteration : ℕ) (output : String)
    (outcomes : List AssertionOutcome) (attempts : List AttemptResult) (tools : List String)
    (latency : ℕ) (costs : Costs)
    → costs_for_usage pricing (attempt_usage attempts) ≡ some costs
    → IsConsistent (judged_by case_id iteration output outcomes attempts tools latency costs)
unfolding judged_by attempt_usage attempt_calls
judged_by-IsConsistent pricing case_id iteration output outcomes attempts tools latency costs h =
    record {
      passed = λ s. rw s (refl, refl, refl, refl, refl);
      explained = λ s. rw s refl;
      input_summed = refl;
      output_summed = refl;
      usage_joined = refl;
      tools_summed = refl;
      unpriced = λ u.
          let e = costs_unpriced pricing (attempt_usage attempts) costs h u in
          (ap (λ c. c.input_cost) e, ap (λ c. c.output_cost) e, ap (λ c. c.total_cost) e);
    }

eq_of_completed-eq : {r s : CaseResult} → completed r ≡ completed s → r ≡ s
eq_of_completed-eq h = cc

priced-IsConsistent :
    (costs : Option Costs) (make : Costs → CaseResult) (r : CaseResult)
    → ((c : Costs) → costs ≡ some c → IsConsistent (make c))
    → priced costs make ≡ completed r
    → IsConsistent r
unfolding priced
priced-IsConsistent none make r all h = cc
priced-IsConsistent (some c) make r all h = subst IsConsistent (eq_of_completed-eq h) (all c refl)

module _ (pricing : Option PricingConfig) (case_id : String) (iteration : ℕ) where
  failed_result-IsConsistent :
      (error : ExecutionError) (attempts : List AttemptResult) (tools : List String) (latency : ℕ)
      (r : CaseResult)
      → failed_result pricing case_id iteration error attempts tools latency ≡ completed r
      → IsConsistent r
  unfolding failed_result
  failed_result-IsConsistent error attempts tools latency r h =
      priced-IsConsistent (costs_for_usage pricing (attempt_usage attempts))
        (failed_by case_id iteration error attempts tools latency) r
        (failed_by-IsConsistent pricing case_id iteration error attempts tools latency) h

  judge_outcomes-IsConsistent :
      (output : String) (outcomes : Option (List AssertionOutcome)) (attempts : List AttemptResult)
      (tools : List String) (latency : ℕ) (r : CaseResult)
      → judge_outcomes pricing case_id iteration output outcomes attempts tools latency
        ≡ completed r
      → IsConsistent r
  unfolding judge_outcomes
  judge_outcomes-IsConsistent output none attempts tools latency r h =
      failed_result-IsConsistent (execution_error "harness" "evaluator_failure" "harness") attempts
        tools latency r h
  judge_outcomes-IsConsistent output (some outcomes) attempts tools latency r h =
      priced-IsConsistent (costs_for_usage pricing (attempt_usage attempts))
        (judged_by case_id iteration output outcomes attempts tools latency) r
        (judged_by-IsConsistent pricing case_id iteration output outcomes attempts tools latency) h

  judge-IsConsistent :
      (evaluate : AdapterResponse → List String → ℕ → Option (List AssertionOutcome))
      (error : Option ExecutionError) (response : Option AdapterResponse) (provider_latency : ℕ)
      (attempts : List AttemptResult) (tools : List String) (latency : ℕ) (r : CaseResult)
      → judge pricing case_id iteration evaluate error response provider_latency attempts tools
          latency
        ≡ completed r
      → IsConsistent r
  unfolding judge
  judge-IsConsistent evaluate (some error) response p attempts tools latency r h =
      failed_result-IsConsistent error attempts tools latency r h
  judge-IsConsistent evaluate none none p attempts tools latency r h = cc
  judge-IsConsistent evaluate none (some response) p attempts tools latency r h =
      judge_outcomes-IsConsistent response.output (evaluate response tools p) attempts tools latency
        r h

module _ (setup : Setup) (config : RunConfig) (case_id : String) (iteration : ℕ)
    (evaluate : AdapterResponse → List String → ℕ → Option (List AssertionOutcome))
    (times : Times) where
  finish_case-IsConsistent :
      (permit : CircuitPermit) (loop : Loop) (b : CircuitBreaker) (r : CaseResult)
      → (finish_case setup config case_id iteration evaluate times permit loop b).0 ≡ completed r
      → IsConsistent r
  unfolding finish_case
  finish_case-IsConsistent permit exhausted b r h = cc
  finish_case-IsConsistent permit cancelled b r h = cc
  finish_case-IsConsistent permit (ended e) b r h =
      judge-IsConsistent config.target.pricing case_id iteration evaluate e.error e.response
        e.latency _ e.tools (times.at_end - times.case_started) r h

  start_case-IsConsistent :
      (env : ℕ → Reading) (fuel : ℕ) (meanwhile : CircuitBreaker → CircuitBreaker)
      (answer : Acquired) (b : CircuitBreaker) (r : CaseResult)
      → (start_case setup config case_id iteration evaluate times env fuel meanwhile answer b).0
        ≡ completed r
      → IsConsistent r
  unfolding start_case execute_permitted_case
  start_case-IsConsistent env fuel meanwhile (granted permit) b r h =
      finish_case-IsConsistent permit _ (meanwhile b) r h
  start_case-IsConsistent env fuel meanwhile (Circuit.rejected error) b r h =
      failed_result-IsConsistent config.target.pricing case_id iteration error _ [] _ r h

-- A completed case, whether it was turned away, failed or was judged: a success has empty failure
-- fields, no error text and only passed assertions; a failure has an error text; its tokens, tool
-- calls and usage flag are those of all its attempts; and without complete usage it has no costs.
pub execute_case-IsConsistent :
    (setup : Setup) (config : RunConfig) (case_id : String) (iteration : ℕ)
    (evaluate : AdapterResponse → List String → ℕ → Option (List AssertionOutcome)) (times : Times)
    (env : ℕ → Reading) (fuel : ℕ) (meanwhile : CircuitBreaker → CircuitBreaker)
    (b : CircuitBreaker) (r : CaseResult)
    → (execute_case setup config case_id iteration evaluate times env fuel meanwhile b).0
      ≡ completed r
    → IsConsistent r
unfolding execute_case
execute_case-IsConsistent setup config case_id iteration evaluate times env fuel meanwhile b r h =
    let (answer, held) = acquire (section (λ x. x.circuit_breaker) config) times.at_acquire b in
    start_case-IsConsistent setup config case_id iteration evaluate times env fuel meanwhile answer
      held r h

-- A case whose breaker rejects it makes no attempt on the provider and leaves the breaker alone: the
-- outcome does not depend on the world, and neither the breaker nor its state changes.
pub rejected_case_inert :
    (setup : Setup) (config : RunConfig) (case_id : String) (iteration : ℕ)
    (evaluate : AdapterResponse → List String → ℕ → Option (List AssertionOutcome)) (times : Times)
    (env env' : ℕ → Reading) (fuel fuel' : ℕ)
    (meanwhile meanwhile' : CircuitBreaker → CircuitBreaker) (b : CircuitBreaker)
    (error : ExecutionError)
    → acquire (section (λ x. x.circuit_breaker) config) times.at_acquire b
      ≡ (Circuit.rejected error, b)
    → let run = execute_case setup config case_id iteration evaluate times in
      (run env fuel meanwhile b ≡ run env' fuel' meanwhile' b) × ((run env fuel meanwhile b).1 ≡ b)
unfolding execute_case start_case
rejected_case_inert setup config case_id iteration evaluate times env env' fuel fuel' meanwhile
      meanwhile' b error h =
    rw h (refl, refl)
