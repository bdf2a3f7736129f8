-- ===== src/Results/Registration/Entries.antt =====
-- results.py: what is found under each key of a rule that is registered.
use agent_storm.Prelude.{
  ℕ, String, Bool, true, false, not, Option, none, some, List, [], ◌∷◌, ◌≡◌, refl, sym, ap, ◌∙◌,
  str_eq, if◌then◌else◌, is_empty, has_text, str_eq_refl,
}
use agent_storm.Models.{Value, Items, Fields}
use agent_storm.Models.Json
use agent_storm.Models.Json.{get, texts, number, numbers}
use agent_storm.Config.{FaultRuleConfig}
use agent_storm.Config.Readers.{get_or, only_keys}
use agent_storm.Config.Scenario.Again.{optional_number, optional_text}
use agent_storm.Results.Payload.{entry, text_entry}
use agent_storm.Results.Registration.{number_entry, rule_payload}

-- Reading through an entry that may be missing.
get-entry_other :
    (k key : String) (b : Bool) (value : Value) (rest : Fields)
    → str_eq key k ≡ false
    → get k (entry b key value rest) ≡ get k rest
unfolding get
get-entry_other k key true value rest h = rw h refl
get-entry_other k key false value rest h = refl

get-entry_same :
    (key : String) (b : Bool) (value : Value) (rest : Fields)
    → get key rest ≡ none
    → get key (entry b key value rest) ≡ (if b then some value else none)
unfolding get
get-entry_same key true value rest h = rw (str_eq_refl key) refl
get-entry_same key false value rest h = h

get_number_other :
    (k key : String) (o : Option ℕ) (rest : Fields)
    → str_eq key k ≡ false
    → get k (number_entry key o rest) ≡ get k rest
unfolding get
get_number_other k key none rest h = refl
get_number_other k key (some n) rest h = rw h refl

get_number_same :
    (key : String) (o : Option ℕ) (rest : Fields)
    → get key rest ≡ none
    → get key (number_entry key o rest) ≡ optional_number o
unfolding get
get_number_same key none rest h = h
get_number_same key (some n) rest h = rw (str_eq_refl key) refl

swap_if : {A : Type 0} (x y : A) (b : Bool) → (if not b then x else y) ≡ (if b then y else x)
swap_if x y true = refl
swap_if x y false = refl

only_keys-entry :
    (key : String) (b : Bool) (value : Value) (rest : Fields) (allowed : List String)
    → has_text key allowed ≡ true
    → only_keys rest allowed ≡ true
    → only_keys (entry b key value rest) allowed ≡ true
unfolding only_keys
only_keys-entry key true value rest allowed h k = rw (h, k) refl
only_keys-entry key false value rest allowed h k = k

only_keys_number :
    (key : String) (o : Option ℕ) (rest : Fields) (allowed : List String)
    → has_text key allowed ≡ true
    → only_keys rest allowed ≡ true
    → only_keys (number_entry key o rest) allowed ≡ true
unfolding only_keys
only_keys_number key none rest allowed h k = k
only_keys_number key (some n) rest allowed h k = rw (h, k) refl

abbrev pub rule_keys : List String
rule_keys =
    "name" ∷ "fault" ∷ "probability" ∷ "caseIDs" ∷ "iterations" ∷ "attempts" ∷ "delayMs"
    ∷ "statusCode" ∷ "toolName" ∷ []

-- The end of a rule's entries, from each one that may be missing.
abbrev tool_part : FaultRuleConfig → Fields
tool_part rule = text_entry "toolName" rule.tool_name Json.end

abbrev status_part : FaultRuleConfig → Fields
status_part rule = number_entry "statusCode" rule.status_code (tool_part rule)

abbrev delay_part : FaultRuleConfig → Fields
delay_part rule = number_entry "delayMs" rule.delay_ms (status_part rule)

abbrev iterations_part : FaultRuleConfig → Fields
iterations_part rule =
    entry (not (is_empty rule.iterations)) "iterations" (Json.array (numbers rule.iterations))
      (delay_part rule)

abbrev ids_part : FaultRuleConfig → Fields
ids_part rule =
    entry (not (is_empty rule.case_ids)) "caseIDs" (Json.array (texts rule.case_ids))
      (iterations_part rule)

pub rule_payload-known : (rule : FaultRuleConfig) → only_keys (rule_payload rule) rule_keys ≡ true
unfolding rule_payload only_keys
rule_payload-known rule =
    only_keys-entry "caseIDs" (not (is_empty rule.case_ids)) (Json.array (texts rule.case_ids))
      (iterations_part rule) rule_keys refl
      (only_keys-entry "iterations" (not (is_empty rule.iterations))
        (Json.array (numbers rule.iterations)) (delay_part rule) rule_keys refl
        (only_keys_number "delayMs" rule.delay_ms (status_part rule) rule_keys refl (
          only_keys_number "statusCode" rule.status_code (tool_part rule) rule_keys refl (
            only_keys-entry "toolName" (not (str_eq rule.tool_name "")) (Json.text rule.tool_name)
              Json.end rule_keys refl refl))))

-- A key that is no entry's from `part` on.
skip_tool :
    (k : String) (rule : FaultRuleConfig)
    → str_eq "toolName" k ≡ false
    → get k (tool_part rule) ≡ none
unfolding get
skip_tool k rule h = get-entry_other k "toolName" (not (str_eq rule.tool_name "")) _ Json.end h

pub get_tool :
    (rule : FaultRuleConfig) → get "toolName" (rule_payload rule) ≡ optional_text rule.tool_name
unfolding get rule_payload
get_tool rule =
    get-entry_other "toolName" "caseIDs" (not (is_empty rule.case_ids)) _ (iterations_part rule)
      refl
    ∙ get-entry_other "toolName" "iterations" (not (is_empty rule.iterations)) _ (delay_part rule)
        refl
    ∙ get_number_other "toolName" "delayMs" rule.delay_ms (status_part rule) refl
    ∙ get_number_other "toolName" "statusCode" rule.status_code (tool_part rule) refl
    ∙ get-entry_same "toolName" (not (str_eq rule.tool_name "")) (Json.text rule.tool_name) Json.end
        refl
    ∙ swap_if (some (Json.text rule.tool_name)) none (str_eq rule.tool_name "")

pub get_status :
    (rule : FaultRuleConfig)
    → get "statusCode" (rule_payload rule) ≡ optional_number rule.status_code
unfolding get rule_payload
get_status rule =
    get-entry_other "statusCode" "caseIDs" (not (is_empty rule.case_ids)) _ (iterations_part rule)
      refl
    ∙ get-entry_other "statusCode" "iterations" (not (is_empty rule.iterations)) _ (delay_part rule)
        refl
    ∙ get_number_other "statusCode" "delayMs" rule.delay_ms (status_part rule) refl
    ∙ get_number_same "statusCode" rule.status_code (tool_part rule)
        (skip_tool "statusCode" rule refl)

pub get_delay :
    (rule : FaultRuleConfig) → get "delayMs" (rule_payload rule) ≡ optional_number rule.delay_ms
unfolding get rule_payload
get_delay rule =
    get-entry_other "delayMs" "caseIDs" (not (is_empty rule.case_ids)) _ (iterations_part rule) refl
    ∙ get-entry_other "delayMs" "iterations" (not (is_empty rule.iterations)) _ (delay_part rule)
        refl
    ∙ get_number_same "delayMs" rule.delay_ms (status_part rule) (
        get_number_other "delayMs" "statusCode" rule.status_code (tool_part rule) refl
        ∙ skip_tool "delayMs" rule refl)

skip_delay :
    (k : String) (rule : FaultRuleConfig)
    → str_eq "delayMs" k ≡ false
    → str_eq "statusCode" k ≡ false
    → str_eq "toolName" k ≡ false
    → get k (delay_part rule) ≡ none
skip_delay k rule d s t =
    get_number_other k "delayMs" rule.delay_ms (status_part rule) d
    ∙ get_number_other k "statusCode" rule.status_code (tool_part rule) s
    ∙ skip_tool k rule t

-- A list that is left out where it is empty is the default.
listed_or_default :
    {A : Type 0} (write : List A → Items) (key : String) (l : List A) (fields : Fields)
    → write [] ≡ Json.nil
    → get key fields ≡ (if not (is_empty l) then some (Json.array (write l)) else none)
    → get_or key (Json.array Json.nil) fields ≡ Json.array (write l)
listed_or_default write key [] fields e h = rw (h, get_or) (ap Json.array (sym e))
listed_or_default write key (s ∷ l) fields e h = rw (h, get_or) refl

pub get_iterations :
    (rule : FaultRuleConfig)
    → get_or "iterations" (Json.array Json.nil) (rule_payload rule)
      ≡ Json.array (numbers rule.iterations)
unfolding get rule_payload
get_iterations rule =
    listed_or_default numbers "iterations" rule.iterations (rule_payload rule) refl (
      get-entry_other "iterations" "caseIDs" (not (is_empty rule.case_ids)) _ (iterations_part rule)
        refl
      ∙ get-entry_same "iterations" (not (is_empty rule.iterations)) _ (delay_part rule)
          (skip_delay "iterations" rule refl refl refl))

pub get_ids :
    (rule : FaultRuleConfig)
    → get_or "caseIDs" (Json.array Json.nil) (rule_payload rule) ≡ Json.array (texts rule.case_ids)
unfolding get rule_payload
get_ids rule = listed_or_default texts "caseIDs" rule.case_ids (rule_payload rule) refl (
    get-entry_same "caseIDs" (not (is_empty rule.case_ids)) _ (iterations_part rule) (
      get-entry_other "caseIDs" "iterations" (not (is_empty rule.iterations)) _ (delay_part rule)
        refl
      ∙ skip_delay "caseIDs" rule refl refl refl))
