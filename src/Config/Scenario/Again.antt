-- ===== src/Config/Scenario/Again.antt =====
-- config.py: `_fault_rule` on the parts of a rule that it has read.
use agent_storm.Prelude.{
  ℕ, String, Bool, true, false, ◌&&◌, Option, none, some, List, ◌≡◌, refl, sym, ap, guard, leb, ltb,
  str_eq, str_eq_iff, and_true, if◌then◌else◌, all_of, byte_count, Bool-cases, inl, inr,
}
use agent_storm.Prelude.Yields.{Yields, Yields-none, Yields-some, Yields-guard, Yields-bind}
use agent_storm.Models.{Value}
use agent_storm.Models.Json
use agent_storm.Models.Json.{number}
use agent_storm.Config.{
  Ratio, Fault, latency, timeout, http_error, malformed_response, rate_limit, tool_error,
  FaultRuleConfig,
}
use agent_storm.Config.Readers.{int_from, is_falsy}
use agent_storm.Config.Readers.Again.{int_from_again}
use agent_storm.Config.Scenario.{fault_named, fault_of, is_none, tool_text, fault_fields, rule_of}

abbrev pub fault_text : Fault → String
fault_text latency = "latency"
fault_text timeout = "timeout"
fault_text http_error = "http_error"
fault_text malformed_response = "malformed_response"
fault_text rate_limit = "rate_limit"
fault_text tool_error = "tool_error"

pub fault_of_again : (fault : Fault) → fault_of (some (Json.text (fault_text fault))) ≡ some fault
unfolding fault_of fault_named
fault_of_again latency = refl
fault_of_again timeout = refl
fault_of_again http_error = refl
fault_of_again malformed_response = refl
fault_of_again rate_limit = refl
fault_of_again tool_error = refl

-- The entries of the fields that depend on the fault.
abbrev pub optional_number : Option ℕ → Option Value
optional_number none = none
optional_number (some n) = some (number n)

abbrev pub optional_text : String → Option Value
optional_text s = if str_eq s "" then none else some (Json.text s)

read_tool : (t : String) → ltb 512 (byte_count t) ≡ false → tool_text (optional_text t) ≡ some t
unfolding tool_text
read_tool t e = elim (Bool-cases (str_eq t "")) [
  | inl f ↦ rw f (ap some (sym ((str_eq_iff t "").0 f)))
  | inr f ↦ rw (f, e) refl
]

tool_text_again :
    (tool : Option Value) → Yields (λ s. tool_text (optional_text s) ≡ some s) (tool_text tool)
unfolding tool_text
tool_text_again none = Yields-some _ "" refl
tool_text_again (some (Json.text t)) = elim (Bool-cases (ltb 512 (byte_count t))) [
  | inl e ↦ rw e (Yields-none _)
  | inr e ↦ rw e (Yields-some (λ s. tool_text (optional_text s) ≡ some s) t (read_tool t e))
]
tool_text_again (some Json.null) = Yields-none _
tool_text_again (some (Json.boolean b)) = Yields-none _
tool_text_again (some (Json.int n)) = Yields-none _
tool_text_again (some (Json.float x)) = Yields-none _
tool_text_again (some (Json.array xs)) = Yields-none _
tool_text_again (some (Json.object fs)) = Yields-none _

-- A rule's fields that depend on its fault are read again from their entries.
abbrev IsReadAgain : Fault → Option ℕ × Option ℕ × String → Type 0
IsReadAgain fault (delay, status, tool) =
    fault_fields fault (optional_number delay) (optional_number status) (optional_text tool)
    ≡ some (delay, status, tool)

pub fault_fields_again :
    (fault : Fault) (delay status tool : Option Value)
    → Yields (IsReadAgain fault) (fault_fields fault delay status tool)
unfolding fault_fields is_none
fault_fields_again latency delay status tool = Yields-bind _ (int_from 0 delay) _ λ ms e.
    Yields-guard _ (is_none status && is_falsy tool) _ λ alone.
      Yields-some (IsReadAgain latency) (some ms, none, "") (rw (int_from_again 0 delay ms e) refl)
fault_fields_again timeout delay status tool = Yields-bind _ (int_from 0 delay) _ λ ms e.
    Yields-guard _ (is_none status && is_falsy tool) _ λ alone.
      Yields-some (IsReadAgain timeout) (some ms, none, "") (rw (int_from_again 0 delay ms e) refl)
fault_fields_again http_error delay status tool = Yields-bind _ (int_from 400 status) _ λ code e.
    Yields-guard _ (leb code 599 && (is_none delay && is_falsy tool)) _ λ checked.
      Yields-some (IsReadAgain http_error) (none, some code, "")
        (rw (int_from_again 400 status code e, (and_true (leb code 599) _ checked).0) refl)
fault_fields_again tool_error delay status tool = Yields-bind _ (tool_text tool) _ λ name e.
    Yields-guard _ (is_none delay && is_none status) _ λ alone.
      Yields-some (IsReadAgain tool_error) (none, none, name)
        (rw (tool_text_again tool name e) refl)
fault_fields_again malformed_response delay status tool =
    Yields-guard _ (is_none delay && is_none status && is_falsy tool) _
      λ alone. Yields-some (IsReadAgain malformed_response) (none, none, "") refl
fault_fields_again rate_limit delay status tool =
    Yields-guard _ (is_none delay && is_none status && is_falsy tool) _
      λ alone. Yields-some (IsReadAgain rate_limit) (none, none, "") refl

-- What a rule that was read says of its parts.
abbrev IsOf :
    Option String
    → Option Fault
    → Option Ratio
    → Option (List String)
    → Option (List ℕ)
    → Option (List ℕ)
    → (Fault → Option (Option ℕ × Option ℕ × String))
    → FaultRuleConfig
    → Type 0
IsOf name fault probability case_ids iterations attempts extras rule =
    (name ≡ some rule.name)
    × (fault ≡ some rule.fault)
    × (probability ≡ some rule.probability)
    × (case_ids ≡ some rule.case_ids)
    × (iterations ≡ some rule.iterations)
    × (attempts ≡ some rule.attempts)
    × (all_of (λ k. leb k 10) rule.attempts ≡ true)
    × (extras rule.fault ≡ some (rule.delay_ms, rule.status_code, rule.tool_name))

pub rule_of-inverse :
    (known : Option Bool) (name : Option String) (fault : Option Fault) (probability : Option Ratio)
    (case_ids : Option (List String)) (iterations attempts : Option (List ℕ))
    (extras : Fault → Option (Option ℕ × Option ℕ × String))
    → Yields
        (IsOf name fault probability case_ids iterations attempts extras)
        (rule_of known name fault probability case_ids iterations attempts extras)
unfolding rule_of
rule_of-inverse known name fault probability case_ids iterations attempts extras =
    Yields-bind _ known _ λ only o. Yields-bind _ name _ λ n a. Yields-bind _ fault _ λ f b.
      Yields-bind _ probability _ λ p c. Yields-bind _ case_ids _ λ cases d.
        Yields-bind _ iterations _ λ rounds e. Yields-bind _ attempts _ λ tries g.
          Yields-guard _ (all_of (λ k. leb k 10) tries) _ λ small.
            Yields-bind _ (extras f) _ λ more h. Yields-some _ _ (a, b, c, d, e, g, small, h)

pub rule_of-read :
    (name : Option String) (fault : Option Fault) (probability : Option Ratio)
    (case_ids : Option (List String)) (iterations attempts : Option (List ℕ))
    (extras : Fault → Option (Option ℕ × Option ℕ × String)) (rule : FaultRuleConfig)
    → IsOf name fault probability case_ids iterations attempts extras rule
    → rule_of (guard true) name fault probability case_ids iterations attempts extras ≡ some rule
unfolding rule_of
rule_of-read name fault probability case_ids iterations attempts extras rule
      (a, b, c, d, e, g, small, h) =
    rw (a, b, c, d, e, g, small, h) refl
