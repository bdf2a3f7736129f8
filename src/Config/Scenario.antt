-- ===== src/Config/Scenario.antt =====
-- config.py: `_scenario_snapshot` and `_fault_rule`. `none` is the ValueError.
-- A `toolName` that the code ignores because it is falsy is read as the empty text.
pub mod Rules
pub mod Again
use agent_storm.Prelude.{
  ℕ, suc, ◌≤◌, String, Bool, true, false, not, ◌&&◌, ◌||◌, Option, none, some, List, [], ◌∷◌, ◌>>=◌,
  guard, ltb, leb, str_eq, if◌then◌else◌, all_of, is_some, byte_count, is_sha256_digest, length,
  map, ◌==◌,
}
use agent_storm.Prelude.Int.{ℤ, pos, negsuc}
use agent_storm.Models.{Value, Items, Fields}
use agent_storm.Models.Json
use agent_storm.Models.Json.{get}
use agent_storm.Config.{
  Ratio, CircuitBreakerConfig, RetryConfig, Fault, latency, timeout, http_error, malformed_response,
  rate_limit, tool_error, FaultRuleConfig, FaultScenarioConfig, ReliabilityConfig,
}
use agent_storm.Config.Readers.{
  get_or, is_present, only_keys, int_from, unit_ratio, nonempty_string, string_selector,
  integer_selector, are_unique, is_falsy,
}

fault_named : String → Option Fault
fault_named s =
    if str_eq s "latency"
    then some latency
    else if str_eq s "timeout"
    then some timeout
    else if str_eq s "http_error"
    then some http_error
    else if str_eq s "malformed_response"
    then some malformed_response
    else if str_eq s "rate_limit"
    then some rate_limit
    else if str_eq s "tool_error"
    then some tool_error
    else none

pub fault_of : Option Value → Option Fault
unfolding fault_named
fault_of (some (Json.text s)) = fault_named s
fault_of _ = none

is_none : Option Value → Bool
is_none none = true
is_none (some Json.null) = true
is_none _ = false

tool_text : Option Value → Option String
tool_text none = some ""
tool_text (some (Json.text s)) = if ltb 512 (byte_count s) then none else some s
tool_text _ = none

-- A status of an HTTP error, without the fields of other faults.
abbrev pub http_extras : Option ℕ → (alone : Bool) → Option (Option ℕ × Option ℕ × String)
http_extras code alone = do
  status ← code
  checked ← guard (leb status 599 && alone)
  some (none, some status, "")

-- The fields that depend on the fault: the delay, the status and the tool.
unfoldable pub fault_fields :
    Fault → (delay status tool : Option Value) → Option (Option ℕ × Option ℕ × String)
unfolding is_none tool_text
fault_fields latency delay status tool = do
  ms ← int_from 0 delay
  alone ← guard (is_none status && is_falsy tool)
  some (some ms, none, "")
fault_fields timeout delay status tool = do
  ms ← int_from 0 delay
  alone ← guard (is_none status && is_falsy tool)
  some (some ms, none, "")
fault_fields http_error delay status tool =
    http_extras (int_from 400 status) (is_none delay && is_falsy tool)
fault_fields tool_error delay status tool = do
  name ← tool_text tool
  alone ← guard (is_none delay && is_none status)
  some (none, none, name)
fault_fields malformed_response delay status tool = do
  alone ← guard (is_none delay && is_none status && is_falsy tool)
  some (none, none, "")
fault_fields rate_limit delay status tool = do
  alone ← guard (is_none delay && is_none status && is_falsy tool)
  some (none, none, "")

-- A rule from its fields as they were read.
unfoldable pub rule_of :
    (known : Option Bool) (name : Option String) (fault : Option Fault) (probability : Option Ratio)
    (case_ids : Option (List String)) (iterations attempts : Option (List ℕ))
    (extras : Fault → Option (Option ℕ × Option ℕ × String))
    → Option FaultRuleConfig
rule_of known name fault probability case_ids iterations attempts extras = do
  only ← known
  n ← name
  f ← fault
  p ← probability
  cases ← case_ids
  rounds ← iterations
  tries ← attempts
  small ← guard (all_of (λ k. leb k 10) tries)
  more ← extras f
  some (
      let (delay, status, tool) = more in
      record {
        name = n;
        fault = f;
        probability = p;
        case_ids = cases;
        iterations = rounds;
        attempts = tries;
        delay_ms = delay;
        status_code = status;
        tool_name = tool;
      })

unfoldable pub rule_fields : Fields → Option FaultRuleConfig
unfolding fault_of
rule_fields fields =
    rule_of
      (guard (
        only_keys fields (
          "name" ∷ "fault" ∷ "probability" ∷ "caseIDs" ∷ "iterations" ∷ "attempts" ∷ "delayMs"
          ∷ "statusCode" ∷ "toolName" ∷ [])))
      (nonempty_string 128 (get "name" fields)) (fault_of (get "fault" fields))
      (unit_ratio (get "probability" fields))
      (string_selector (get_or "caseIDs" (Json.array Json.nil) fields))
      (integer_selector (get_or "iterations" (Json.array Json.nil) fields) 0)
      (integer_selector
        (get_or "attempts" (Json.array (Json.cons (Json.int (pos 1)) Json.nil)) fields) 1)
      (λ fault.
        fault_fields fault (get "delayMs" fields) (get "statusCode" fields) (get "toolName" fields))

-- `_fault_rule`
unfoldable pub parse_fault_rule : Value → Option FaultRuleConfig
unfolding rule_fields
parse_fault_rule (Json.object fields) = rule_fields fields
parse_fault_rule _ = none

unfoldable pub parse_rules : Items → Option (List FaultRuleConfig)
unfolding parse_fault_rule
parse_rules Json.nil = some []
parse_rules (Json.cons item items) = do
  rule ← parse_fault_rule item
  rules ← parse_rules items
  some (rule ∷ rules)

-- The rules of an array.
unfoldable pub rules_in : Option Value → Option (List FaultRuleConfig)
rules_in (some (Json.array items)) = parse_rules items
rules_in _ = none

pub is_text : Option Value → String → Bool
is_text (some (Json.text s)) expected = str_eq s expected
is_text _ expected = false

-- The fault scenario inside a snapshot: its rules.
unfoldable pub scenario_rules : Option Value → Option (List FaultRuleConfig)
unfolding is_text
scenario_rules (some (Json.object scenario)) = do
  known ← guard (only_keys scenario ("apiVersion" ∷ "kind" ∷ "rules" ∷ []))
  versioned ← guard (
      is_text (get "apiVersion" scenario) "agentstorm.io/v1alpha1"
      && is_text (get "kind" scenario) "FaultScenario")
  rules ← rules_in (get "rules" scenario)
  few ← guard (leb (length rules) 100)
  distinct ← guard (are_unique (map (λ r. r.name) rules))
  some rules
scenario_rules _ = none

unfoldable pub snapshot_fields : Fields → Option FaultScenarioConfig
snapshot_fields fields = do
  known ← guard (only_keys fields ("sourceName" ∷ "sourceKey" ∷ "digest" ∷ "scenario" ∷ []))
  source_name ← nonempty_string 253 (get "sourceName" fields)
  source_key ← nonempty_string 253 (get "sourceKey" fields)
  digest ← nonempty_string 71 (get "digest" fields)
  hashed ← guard (is_sha256_digest digest)
  rules ← scenario_rules (get "scenario" fields)
  some (record {
    source_name = source_name;
    source_key = source_key;
    digest = digest;
    rules = rules;
  })

-- `_scenario_snapshot`
unfoldable pub parse_scenario : Option Value → Option (Option FaultScenarioConfig)
unfolding snapshot_fields
parse_scenario none = some none
parse_scenario (some Json.null) = some none
parse_scenario (some (Json.object fields)) = do
  scenario ← snapshot_fields fields
  some (some scenario)
parse_scenario (some _) = none
