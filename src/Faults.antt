-- ===== src/Faults.antt =====
-- worker/src/agentstorm_worker/faults.py: deterministic fault injection around an adapter.
-- `digest_number` stands for the first eight bytes of the SHA-256 digest of a text, big endian.
-- The sleeps of `latency` and `timeout` only take time.
pub mod Selection
pub mod Injection
use agent_storm.Prelude.{
  ℕ, suc, ◌*◌, ◌^◌, String, Bool, true, false, not, ◌&&◌, ◌||◌, Option, none, some, List, [], ◌∷◌,
  ◌==◌, ltb, leb, str_eq, has_text, any_of, is_empty, is_some, if◌then◌else◌, decimal, join_nul,
  insert,
}
use agent_storm.Models.{AdapterResponse, Value}
use agent_storm.Models.Json
use agent_storm.Config.{
  Ratio, Fault, latency, timeout, http_error, malformed_response, rate_limit, tool_error,
  FaultRuleConfig, FaultScenarioConfig,
}
use agent_storm.Errors.{ExecutionError}
use agent_storm.Adapters.{Outcome, answered, raised, AdapterRun, raise_error}

-- `value in numbers`
abbrev pub has_number : ℕ → List ℕ → Bool
has_number n = any_of (λ m. n == m)

-- The three selectors of a rule.
pub is_selected : FaultRuleConfig → String → ℕ → ℕ → Bool
is_selected rule case_id iteration attempt =
    (is_empty rule.case_ids || has_text case_id rule.case_ids)
    && (is_empty rule.iterations || has_number iteration rule.iterations)
    && has_number attempt rule.attempts

-- `draw / 2 ** 64 < probability`
pub is_drawn : ℕ → Ratio → Bool
is_drawn draw probability = ltb (draw * suc probability.over) (probability.numerator * 2 ^ 64)

module _ (digest_number : String → ℕ) where
  pub fault_draw : String → ℕ → String → ℕ → ℕ → FaultRuleConfig → ℕ
  fault_draw digest seed case_id iteration attempt rule = digest_number (
      join_nul
        (digest ∷ decimal seed ∷ case_id ∷ decimal iteration ∷ decimal attempt ∷ rule.name ∷ []))

  -- The loop over the rules.
  unfoldable pub first_rule :
      String → ℕ → String → ℕ → ℕ → List FaultRuleConfig → Option FaultRuleConfig
  unfolding is_selected is_drawn fault_draw
  first_rule digest seed case_id iteration attempt [] = none
  first_rule digest seed case_id iteration attempt (rule ∷ rules) =
      if is_selected rule case_id iteration attempt
        && is_drawn (fault_draw digest seed case_id iteration attempt rule) rule.probability
      then some rule
      else first_rule digest seed case_id iteration attempt rules

  -- `select_fault_rule`
  unfoldable pub select_fault_rule :
      Option FaultScenarioConfig → Option ℕ → String → ℕ → ℕ → Option FaultRuleConfig
  unfolding first_rule
  select_fault_rule none seed case_id iteration attempt = none
  select_fault_rule (some scenario) none case_id iteration attempt = none
  select_fault_rule (some scenario) (some seed) case_id iteration attempt =
      first_rule scenario.digest seed case_id iteration attempt scenario.rules

pub fault_text : Fault → String
fault_text latency = "latency"
fault_text timeout = "timeout"
fault_text http_error = "http_error"
fault_text malformed_response = "malformed_response"
fault_text rate_limit = "rate_limit"
fault_text tool_error = "tool_error"

-- `_with_injection`
with_injection : AdapterResponse → FaultRuleConfig → AdapterResponse
unfolding fault_text
with_injection response rule = record response {
  metadata =
      insert "agentstorm.injected_fault" (Json.text (fault_text rule.fault))
        (insert "agentstorm.injected_rule" (Json.text rule.name) response.metadata);
}

-- `_injected_error`
injected_error :
    FaultRuleConfig
    → (category code failure_kind : String)
    → (ambiguous safe_to_retry : Bool) (response : Option AdapterResponse) (usage_complete : Bool)
    → ExecutionError
unfolding fault_text
injected_error rule category code failure_kind ambiguous safe_to_retry response usage_complete =
    record {
      category = category;
      code = code;
      failure_kind = failure_kind;
      ambiguous = ambiguous;
      safe_to_retry = safe_to_retry;
      response = response;
      injected_rule = rule.name;
      injected_fault = fault_text rule.fault;
      usage_complete = usage_complete;
      circuit_events = [];
    }

-- `rule.status_code or 500`
pub status_of : FaultRuleConfig → ℕ
status_of rule = elim rule.status_code [
  | none ↦ 500
  | some status ↦ if status == 0 then 500 else status
]

pub http_fault : FaultRuleConfig → ExecutionError
unfolding injected_error status_of
http_fault rule =
    let status = status_of rule in
    injected_error rule "provider"
      (if status == 429 then "rate_limited" else if leb 500 status then "http_5xx" else "http_4xx")
      "provider" (leb 500 status) (status == 429) none true

malformed : FaultRuleConfig → AdapterResponse → ExecutionError
unfolding injected_error
malformed rule response =
    injected_error rule "provider" "malformed_response" "provider" true false (some response)
      (is_some response.input_tokens && is_some response.output_tokens)

-- `_ToolFaultLifecycle.tool_started` over the tools that the adapter starts: the delegate records a
-- name before the error is raised, and an empty `tool_name` matches every tool.
unfoldable pub start_tools : FaultRuleConfig → List String → List String × Bool
start_tools rule [] = ([], false)
start_tools rule (name ∷ names) =
    let rest = start_tools rule names in
    if str_eq rule.tool_name "" || str_eq rule.tool_name name
    then (name ∷ [], true)
    else (name ∷ rest.0, rest.1)

tool_fault : FaultRuleConfig → AdapterRun → Outcome × List String
unfolding start_tools injected_error
tool_fault rule run =
    let (names, injected) = start_tools rule run.tools in
    (
      if injected
          then raised (
              raise_error
                (injected_error rule "tool" "injected_tool_error" "tool" true false none false))
          else run.outcome,
      names,
    )

answer_latency : FaultRuleConfig → Outcome → Outcome
unfolding with_injection
answer_latency rule (answered response) = answered (with_injection response rule)
answer_latency rule (raised exc) = raised exc

answer_malformed : FaultRuleConfig → Outcome → Outcome
unfolding malformed
answer_malformed rule (answered response) = raised (raise_error (malformed rule response))
answer_malformed rule (raised exc) = raised exc

pub run_fault : Fault → FaultRuleConfig → AdapterRun → Outcome × List String
unfolding answer_latency answer_malformed tool_fault http_fault injected_error
run_fault latency rule run = (answer_latency rule run.outcome, run.tools)
run_fault timeout rule run = (
  raised (raise_error (injected_error rule "provider" "timeout" "timeout" true false none true)),
  [],
)
run_fault rate_limit rule run = (
  raised
      (raise_error (injected_error rule "provider" "rate_limited" "provider" false true none true)),
  [],
)
run_fault http_error rule run = (raised (raise_error (http_fault rule)), [])
run_fault tool_error rule run = tool_fault rule run
run_fault malformed_response rule run = (answer_malformed rule run.outcome, run.tools)

pub run_rule : Option FaultRuleConfig → AdapterRun → Outcome × List String
unfolding run_fault
run_rule none run = (run.outcome, run.tools)
run_rule (some rule) run = run_fault rule.fault rule run

-- `FaultInjectionMiddleware.run`: the outcome, and the tools that the lifecycle recorded.
unfoldable pub run_with_faults :
    (String → ℕ)
    → Option FaultScenarioConfig
    → Option ℕ
    → String
    → ℕ
    → ℕ
    → AdapterRun
    → Outcome × List String
unfolding run_rule
run_with_faults digest_number scenario seed case_id iteration attempt run =
    run_rule (select_fault_rule digest_number scenario seed case_id iteration attempt) run
