-- ===== src/Faults/Injection.antt =====
-- faults.py: what an injected fault does to an attempt.
use agent_storm.Prelude.{
  ◌≤◌, ◌<◌, String, Bool, true, false, none, some, List, [], ◌∷◌, ◌++◌, ◌≡◌, refl, ◌≢◌, any_of, inl,
  inr, arith, ap, Bool-cases, str_eq, ◌||◌,
}
use agent_storm.Config.{
  Fault, latency, timeout, http_error, malformed_response, rate_limit, tool_error, FaultRuleConfig,
}
use agent_storm.Errors.{ExecutionError}
use agent_storm.Adapters.{raised, AdapterRun, raise_error}
use agent_storm.Faults.{run_fault, run_rule, http_fault, status_of, injected_error, start_tools}

-- The faults that take the place of the call.
abbrev pub is_instead : Fault → Bool
is_instead timeout = true
is_instead rate_limit = true
is_instead http_error = true
is_instead _ = false

instead_of_fault :
    (fault : Fault) (rule : FaultRuleConfig) (run : AdapterRun)
    → is_instead fault ≡ true
    → (error : ExecutionError) × (run_fault fault rule run ≡ (raised (raise_error error), []))
      × (error.category ≡ "provider")
      × (error.injected_rule ≡ rule.name)
      × (error.response ≡ none)
      × (error.usage_complete ≡ true)
      × (error.safe_to_retry ≡ true → error.ambiguous ≡ false)
unfolding run_fault
instead_of_fault latency rule run h = cc
instead_of_fault timeout rule run h = (
  injected_error rule "provider" "timeout" "timeout" true false none true,
  refl,
  refl,
  refl,
  refl,
  refl,
  λ e. cc,
)
instead_of_fault http_error rule run h =
    (http_fault rule, refl, refl, refl, refl, refl, ground arith)
instead_of_fault malformed_response rule run h = cc
instead_of_fault rate_limit rule run h = (
  injected_error rule "provider" "rate_limited" "provider" false true none true,
  refl,
  refl,
  refl,
  refl,
  refl,
  λ e. refl,
)
instead_of_fault tool_error rule run h = cc

-- A timeout, rate-limit or HTTP fault does not depend on what the adapter would have done: it starts
-- no tool and raises a provider error that carries the rule, counts as completely accounted for, and
-- is safe to retry only if it is not ambiguous.
pub instead_of_call :
    (rule : FaultRuleConfig) (run : AdapterRun)
    → is_instead rule.fault ≡ true
    → (error : ExecutionError) × (run_rule (some rule) run ≡ (raised (raise_error error), []))
      × (error.category ≡ "provider")
      × (error.injected_rule ≡ rule.name)
      × (error.response ≡ none)
      × (error.usage_complete ≡ true)
      × (error.safe_to_retry ≡ true → error.ambiguous ≡ false)
unfolding run_rule
instead_of_call rule run h = instead_of_fault rule.fault rule run h

-- An HTTP fault is classified as a real status is: 429 is a rate limit and safe to retry, 500 and
-- above is an ambiguous server error, anything else is final.
pub http_fault_classes :
    (rule : FaultRuleConfig)
    → let status = status_of rule in
      let error = http_fault rule in
      (status ≡ 429 → (error.code ≡ "rate_limited") × (error.safe_to_retry ≡ true))
      × (500 ≤ status → (error.code ≡ "http_5xx") × (error.ambiguous ≡ true))
      × (status ≢ 429
          → status < 500
          → (error.code ≡ "http_4xx") × (error.ambiguous ≡ false) × (error.safe_to_retry ≡ false))
unfolding http_fault
http_fault_classes rule = ground arith

-- The tools that a tool fault lets start are a first part of those that the adapter starts, and the
-- fault is injected exactly if one of those matches the rule's tool name, an empty one matching all.
pub start_tools_prefix :
    (rule : FaultRuleConfig) (names : List String)
    → let (started, injected) = start_tools rule names in
      ((rest : List String) × (names ≡ started ++ rest))
      × (injected ≡ any_of (λ name. str_eq rule.tool_name "" || str_eq rule.tool_name name) names)
unfolding start_tools
start_tools_prefix rule [] = (([], refl), refl)
start_tools_prefix rule (name ∷ names) =
    let ((rest, split), same) = start_tools_prefix rule names in
    elim (Bool-cases (str_eq rule.tool_name "" || str_eq rule.tool_name name)) [
      | inl e ↦ rw e ((names, refl), refl)
      | inr e ↦ rw e ((rest, ap (λ l. name ∷ l) split), same)
    ]
