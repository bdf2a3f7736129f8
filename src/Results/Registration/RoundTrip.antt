-- ===== src/Results/Registration/RoundTrip.antt =====
-- results.py and config.py: the scenario document that is registered, read again.
use agent_storm.Prelude.{
  ◌&&◌, Option, none, some, List, [], ◌∷◌, ◌≡◌, refl, sym, subst, guard, leb, length, map,
}
use agent_storm.Prelude.Yields.{Yields, Yields-none, Yields-some, Yields-guard, Yields-bind}
use agent_storm.Prelude.Int.{pos}
use agent_storm.Models.{Value, Items, Fields}
use agent_storm.Models.Json
use agent_storm.Models.Json.{get, texts, number, numbers}
use agent_storm.Config.{FaultRuleConfig, FaultScenarioConfig}
use agent_storm.Config.Readers.{
  get_or, only_keys, unit_ratio, nonempty_string, string_selector, integer_selector, are_unique,
}
use agent_storm.Config.Readers.Again.{
  nonempty_string_again, unit_ratio_again, string_selector_again, integer_selector_again,
}
use agent_storm.Config.Scenario.{
  fault_of, fault_fields, rule_fields, parse_fault_rule, parse_rules, rules_in, is_text,
  scenario_rules, snapshot_fields, parse_scenario,
}
use agent_storm.Config.Scenario.Rules.{snapshot-rules, lifted_inverse}
use agent_storm.Config.Scenario.Again.{
  fault_of_again, optional_number, optional_text, fault_fields_again, rule_of-inverse, rule_of-read,
}
use agent_storm.Results.Registration.{rule_payload, rules_payload, document_payload}
use agent_storm.Results.Registration.Entries.{
  rule_keys, rule_payload-known, get_tool, get_status, get_delay, get_iterations, get_ids,
}

abbrev first_attempt : Value
first_attempt = Json.array (Json.cons (Json.int (pos 1)) Json.nil)

extras_read :
    (rule : FaultRuleConfig)
    → fault_fields rule.fault
        (optional_number rule.delay_ms)
        (optional_number rule.status_code)
        (optional_text rule.tool_name)
      ≡ some (rule.delay_ms, rule.status_code, rule.tool_name)
    → fault_fields rule.fault
        (get "delayMs" (rule_payload rule))
        (get "statusCode" (rule_payload rule))
        (get "toolName" (rule_payload rule))
      ≡ some (rule.delay_ms, rule.status_code, rule.tool_name)
extras_read rule h = rw (get_delay rule, get_status rule, get_tool rule) h

-- A rule that was read, written and read once more is the same rule.
pub rule_payload-read :
    (fields : Fields)
    → Yields (λ rule. rule_fields (rule_payload rule) ≡ some rule) (rule_fields fields)
unfolding rule_fields rule_payload get
rule_payload-read fields rule h =
    let (a, b, c, d, e, g, small, more) =
      rule_of-inverse (guard (only_keys fields rule_keys)) (nonempty_string 128 (get "name" fields))
        (fault_of (get "fault" fields)) (unit_ratio (get "probability" fields))
        (string_selector (get_or "caseIDs" (Json.array Json.nil) fields))
        (integer_selector (get_or "iterations" (Json.array Json.nil) fields) 0)
        (integer_selector (get_or "attempts" first_attempt fields) 1)
        (λ fault.
          fault_fields fault (get "delayMs" fields) (get "statusCode" fields)
            (get "toolName" fields))
        rule h in
    let written = rule_payload rule in
    rw (rule_payload-known rule) (
      rule_of-read (nonempty_string 128 (get "name" written)) (fault_of (get "fault" written))
        (unit_ratio (get "probability" written))
        (string_selector (get_or "caseIDs" (Json.array Json.nil) written))
        (integer_selector (get_or "iterations" (Json.array Json.nil) written) 0)
        (integer_selector (get_or "attempts" first_attempt written) 1)
        (λ fault.
          fault_fields fault (get "delayMs" written) (get "statusCode" written)
            (get "toolName" written))
        rule
        (
          nonempty_string_again 128 (get "name" fields) rule.name a,
          fault_of_again rule.fault,
          unit_ratio_again (get "probability" fields) rule.probability c,
          subst (λ v. string_selector v ≡ some rule.case_ids) (sym (get_ids rule))
              (string_selector_again (get_or "caseIDs" (Json.array Json.nil) fields) rule.case_ids
                d),
          subst (λ v. integer_selector v 0 ≡ some rule.iterations) (sym (get_iterations rule))
              (integer_selector_again (get_or "iterations" (Json.array Json.nil) fields) 0
                rule.iterations e),
          integer_selector_again (get_or "attempts" first_attempt fields) 1 rule.attempts g,
          small,
          extras_read rule (
              fault_fields_again rule.fault (get "delayMs" fields) (get "statusCode" fields)
                (get "toolName" fields) (rule.delay_ms, rule.status_code, rule.tool_name) more),
        ))

fault_rule_read :
    (item : Value)
    → Yields
        (λ rule. parse_fault_rule (Json.object (rule_payload rule)) ≡ some rule)
        (parse_fault_rule item)
unfolding parse_fault_rule
fault_rule_read (Json.object fields) = rule_payload-read fields
fault_rule_read Json.null = Yields-none _
fault_rule_read (Json.boolean b) = Yields-none _
fault_rule_read (Json.int n) = Yields-none _
fault_rule_read (Json.float x) = Yields-none _
fault_rule_read (Json.text s) = Yields-none _
fault_rule_read (Json.array xs) = Yields-none _

rules_payload-read :
    (items : Items)
    → Yields (λ rules. parse_rules (rules_payload rules) ≡ some rules) (parse_rules items)
unfolding parse_rules rules_payload parse_fault_rule
rules_payload-read Json.nil = Yields-some _ [] refl
rules_payload-read (Json.cons item items) = Yields-bind _ (parse_fault_rule item) _ λ rule e.
    Yields-bind _ (parse_rules items) _ λ rules f.
      Yields-some (λ l. parse_rules (rules_payload l) ≡ some l) (rule ∷ rules)
        (rw (fault_rule_read item rule e, rules_payload-read items rules f) refl)

rules_in-read :
    (value : Option Value)
    → Yields (λ rules. parse_rules (rules_payload rules) ≡ some rules) (rules_in value)
unfolding rules_in
rules_in-read (some (Json.array items)) = rules_payload-read items
rules_in-read none = Yields-none _
rules_in-read (some Json.null) = Yields-none _
rules_in-read (some (Json.boolean b)) = Yields-none _
rules_in-read (some (Json.int n)) = Yields-none _
rules_in-read (some (Json.float x)) = Yields-none _
rules_in-read (some (Json.text s)) = Yields-none _
rules_in-read (some (Json.object fs)) = Yields-none _

-- The document of a scenario with these rules is accepted, and they are its rules.
IsReadBack : List FaultRuleConfig → Type 0
IsReadBack rules =
    (scenario : FaultScenarioConfig)
    → scenario.rules ≡ rules
    → scenario_rules (some (Json.object (document_payload scenario))) ≡ some rules

scenario_fields-read :
    (fields : Fields) → Yields IsReadBack (scenario_rules (some (Json.object fields)))
unfolding scenario_rules rules_in document_payload only_keys get IsReadBack
scenario_fields-read fields =
    Yields-guard _ (only_keys fields ("apiVersion" ∷ "kind" ∷ "rules" ∷ [])) _ λ known.
      Yields-guard _
        (is_text (get "apiVersion" fields) "agentstorm.io/v1alpha1"
          && is_text (get "kind" fields) "FaultScenario")
        _
        λ versioned. Yields-bind _ (rules_in (get "rules" fields)) _ λ rules e.
          Yields-guard _ (leb (length rules) 100) _ λ few.
            Yields-guard _ (are_unique (map (λ r. r.name) rules)) _ λ distinct.
              Yields-some IsReadBack rules λ scenario same.
                rw (same, rules_in-read (get "rules" fields) rules e, few, distinct) refl

scenario_rules-read : (value : Option Value) → Yields IsReadBack (scenario_rules value)
unfolding scenario_rules IsReadBack
scenario_rules-read (some (Json.object fields)) = scenario_fields-read fields
scenario_rules-read none = Yields-none _
scenario_rules-read (some Json.null) = Yields-none _
scenario_rules-read (some (Json.boolean b)) = Yields-none _
scenario_rules-read (some (Json.int n)) = Yields-none _
scenario_rules-read (some (Json.float x)) = Yields-none _
scenario_rules-read (some (Json.text s)) = Yields-none _
scenario_rules-read (some (Json.array xs)) = Yields-none _

snapshot-read :
    (value : Option Value) (scenario : FaultScenarioConfig)
    → parse_scenario value ≡ some (some scenario)
    → IsReadBack scenario.rules
unfolding parse_scenario
snapshot-read (some (Json.object fields)) scenario h =
    scenario_rules-read (get "scenario" fields) scenario.rules
      (snapshot-rules fields scenario (lifted_inverse (snapshot_fields fields) scenario h))
snapshot-read none scenario h = cc
snapshot-read (some Json.null) scenario h = cc
snapshot-read (some (Json.boolean b)) scenario h = cc
snapshot-read (some (Json.int n)) scenario h = cc
snapshot-read (some (Json.float x)) scenario h = cc
snapshot-read (some (Json.text s)) scenario h = cc
snapshot-read (some (Json.array xs)) scenario h = cc

-- The document that a run registers for a fault scenario is one that the worker accepts, and it has
-- the same rules: every scenario that was read from a run's configuration is read back from it.
pub document_payload-read :
    (value : Option Value) (scenario : FaultScenarioConfig)
    → parse_scenario value ≡ some (some scenario)
    → scenario_rules (some (Json.object (document_payload scenario))) ≡ some scenario.rules
unfolding IsReadBack
document_payload-read value scenario h = snapshot-read value scenario h scenario refl
