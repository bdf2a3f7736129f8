-- ===== src/Tests/Assertions.antt =====
-- evaluators.py at small inputs, alone and in a case.
use agent_storm.Prelude.{ℕ, String, Bool, true, none, some, [], ◌∷◌, ◌≡◌, refl, All, map}
use agent_storm.Tests.Fixtures.{plain_run, plain_setup}
use agent_storm.Models.{Value, contains, regex, AssertionOutcome, TestCase, effective_assertions}
use agent_storm.Models.Json
use agent_storm.Errors.{classify_adapter_exception}
use agent_storm.Adapters.{fake_run}
use agent_storm.Circuit.{new, acquire, record_terminal}
use agent_storm.Faults.{run_with_faults, select_fault_rule}
use agent_storm.Pricing.{case_costs}
use agent_storm.Prelude.{lookup, is_part}
use agent_storm.Retry.{retry_eligibility, retry_backoff_ms, capped_backoff}
use agent_storm.Config.Readers.{are_unique}
use agent_storm.Evaluators.{
  Libraries, Registry, EvaluationContext, decoded, valid, returned, registry_of, prepare_all,
  prepare_case, prepare, plugin, evaluate, evaluate_from, evaluate_one, invoke, invoke_with,
  outcome_of, find,
}
use agent_storm.Evaluators.Verdicts.{AreVerdicts, evaluate-AreVerdicts}
use agent_storm.Runner.Metadata.{attempt_provider_code, rate_limit_events, provider_token}
use agent_storm.Runner.Usage.{costs_for_usage, attempt_usage, attempt_calls, case_provider_fields}
use agent_storm.Runner.Records.{CaseResult}
use agent_storm.Runner.Attempt.{invoke_attempt}
use agent_storm.Runner.Case.{
  attempt_loop, settle, try_once, decided, with_decision, with_permit_events, decide,
}
use agent_storm.Runner.Finish.{completed, execute_case, extend_last, failed_result}
use agent_storm.Runner.Finish.Judged.{
  IsEarned, evaluators, evaluation_context, execute_case-IsEarned,
}
use agent_storm.Tests.Cases.{hello, times, unchanged, readings, result}

-- Every pattern is found, and every schema is met.
abbrev libraries : Libraries String Value Bool
libraries = record {
  compile = λ s. some s;
  search = λ pattern output. true;
  check_schema = λ schema. some schema;
  validate = λ schema value. valid;
  loads = λ s. decoded Json.null;
  import_function = λ module_name function_name. some true;
  call = λ function context config. returned (Json.boolean function);
  key_error = λ case_id index. "KeyError";
}

abbrev greeting : TestCase
greeting = record hello { assertions = regex "h." ∷ contains "fake" ∷ [] }

abbrev registry : Registry libraries
registry = record { regexes = ("c", 0, "h.") ∷ []; schemas = []; functions = [] }

registered : registry_of libraries (greeting ∷ []) ≡ some registry
unfolding registry_of prepare_all prepare_case prepare plugin effective_assertions
registered = refl

abbrev passing : ℕ → String → AssertionOutcome
passing index type = record {
  index = index;
  type = type;
  passed = true;
  reason_code = "passed";
  message = none;
}

abbrev judged : CaseResult
judged = record result { assertions = passing 0 "regex" ∷ passing 1 "contains" ∷ [] }

judged_ends :
    (execute_case plain_setup plain_run "c" 0
      (evaluators libraries registry greeting)
      times
      readings
      3
      unchanged
      new).0
    ≡ completed judged
unfolding execute_case acquire record_terminal extend_last costs_for_usage attempt_usage
    attempt_calls case_provider_fields case_costs failed_result evaluators evaluation_context
    evaluate evaluate_from evaluate_one invoke invoke_with outcome_of find effective_assertions
    is_part attempt_loop settle try_once invoke_attempt decided with_decision with_permit_events
    decide run_with_faults select_fault_rule fake_run retry_eligibility classify_adapter_exception
    retry_backoff_ms capped_backoff attempt_provider_code rate_limit_events provider_token lookup
judged_ends = refl

distinct_ids : are_unique (map (λ t. t.case_id) (greeting ∷ [])) ≡ true
distinct_ids = refl

evaluate-AreVerdicts_example :
    All
      (λ t.
        (context : EvaluationContext)
        → AreVerdicts libraries context 0
            (effective_assertions t)
            (evaluate libraries registry t context))
      (greeting ∷ [])
evaluate-AreVerdicts_example =
    evaluate-AreVerdicts libraries (greeting ∷ []) registry distinct_ids registered

execute_case-IsEarned_example : IsEarned libraries plain_setup 0 readings greeting judged
execute_case-IsEarned_example =
    execute_case-IsEarned libraries (greeting ∷ []) registry 0 greeting plain_setup plain_run 0
      times readings 3 unchanged new judged distinct_ids registered refl judged_ends refl
