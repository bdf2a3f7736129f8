-- ===== src/Config/Scenario/Rules.antt =====
-- config.py: what an accepted fault scenario satisfies.
use agent_storm.Prelude.{
  subst, eq_of_some-eq, Bool-cases, ℕ, suc, ◌≤◌, String, Bool, true, ◌&&◌, Option, none, some, List,
  [], ◌∷◌, ◌≡◌, refl, ◌>>=◌, leb, leb→le, all_of, is_some, arith, All, length, map, inl, inr,
}
use agent_storm.Prelude.Int.{pos, negsuc}
use agent_storm.Models.{Value, Items, Fields}
use agent_storm.Models.Json
use agent_storm.Models.Json.{get}
use agent_storm.Config.{
  Ratio, Fault, latency, timeout, http_error, malformed_response, rate_limit, tool_error,
  FaultRuleConfig, FaultScenarioConfig,
}
use agent_storm.Config.Readers.{
  strict_int, int_from, unit_ratio, integer_selector, integers, are_unique,
}
use agent_storm.Config.Scenario.{
  http_extras, fault_fields, rule_of, rule_fields, parse_fault_rule, parse_rules, rules_in,
  scenario_rules, snapshot_fields, parse_scenario,
}

pub int_from-le : (m n : ℕ) (value : Option Value) → int_from m value ≡ some n → m ≤ n
unfolding int_from strict_int
int_from-le m n (some (Json.int (pos k))) h = ground arith
int_from-le m n (some (Json.int (negsuc k))) h = cc
int_from-le m n none h = cc
int_from-le m n (some Json.null) h = cc
int_from-le m n (some (Json.boolean b)) h = cc
int_from-le m n (some (Json.float x)) h = cc
int_from-le m n (some (Json.text s)) h = cc
int_from-le m n (some (Json.array items)) h = cc
int_from-le m n (some (Json.object fields)) h = cc

pub ratio_bounds :
    (value : Option Value) (r : Ratio) → unit_ratio value ≡ some r → r.numerator ≤ suc r.over
unfolding unit_ratio
ratio_bounds value r h = ground arith

-- The fields that a fault has, and no others.
abbrev pub HasFields : Fault → (delay status : Option ℕ) → (tool : String) → Type 0
HasFields latency delay status tool = (is_some delay ≡ true) × (status ≡ none) × (tool ≡ "")
HasFields timeout delay status tool = (is_some delay ≡ true) × (status ≡ none) × (tool ≡ "")
HasFields http_error delay status tool =
    (delay ≡ none) × (tool ≡ "") × ((code : ℕ) × (status ≡ some code) × (400 ≤ code) × (code ≤ 599))
HasFields tool_error delay status tool = (delay ≡ none) × (status ≡ none)
HasFields malformed_response delay status tool = (delay ≡ none) × (status ≡ none) × (tool ≡ "")
HasFields rate_limit delay status tool = (delay ≡ none) × (status ≡ none) × (tool ≡ "")

pub record IsValidRule (rule : FaultRuleConfig) : Type 0 where
  pub probability : rule.probability.numerator ≤ suc rule.probability.over
  pub attempts : All (λ n. (1 ≤ n) × (n ≤ 10)) rule.attempts
  pub fields : HasFields rule.fault rule.delay_ms rule.status_code rule.tool_name

http_inverse :
    (o : Option ℕ) (b : Bool) (ms code : Option ℕ) (name : String)
    → http_extras o b ≡ some (ms, code, name)
    → (ms ≡ none) × (name ≡ "") × ((n : ℕ) × (code ≡ some n) × (o ≡ some n) × (leb n 599 ≡ true))
http_inverse none b ms code name h = cc
http_inverse (some n) b ms code name h = elim (Bool-cases (leb n 599 && b)) [
  | inl e ↦ let k = rw e at h in (cc, cc, (n, cc, refl, ground (arith, e)))
  | inr e ↦ let k = rw e at h in cc
]

fault_fields-HasFields :
    (fault : Fault) (delay status tool : Option Value) (ms code : Option ℕ) (name : String)
    → fault_fields fault delay status tool ≡ some (ms, code, name)
    → HasFields fault ms code name
unfolding fault_fields
fault_fields-HasFields latency delay status tool ms code name h = grind (arith, int_from-le)
fault_fields-HasFields timeout delay status tool ms code name h = grind (arith, int_from-le)
fault_fields-HasFields http_error delay status tool ms code name h =
    let (a, b, (n, c, e, l)) = http_inverse (int_from 400 status) _ ms code name h in
    (a, b, (n, c, int_from-le 400 n status e, leb→le n 599 l))
fault_fields-HasFields tool_error delay status tool ms code name h = grind (arith, int_from-le)
fault_fields-HasFields malformed_response delay status tool ms code name h = grind arith
fault_fields-HasFields rate_limit delay status tool ms code name h = grind arith

cons_inverse {ℓ} :
    {A : Type ℓ} (o : Option A) (rest : Option (List A)) (all : List A)
    → (o >>= λ x. rest >>= λ xs. some (x ∷ xs)) ≡ some all
    → (x : A) × (xs : List A) × (o ≡ some x) × (rest ≡ some xs) × (x ∷ xs ≡ all)
cons_inverse none rest all h = cc
cons_inverse (some x) none all h = cc
cons_inverse (some x) (some xs) all h = (x, xs, refl, refl, eq_of_some-eq h)

integers-All :
    (minimum : ℕ) (items : Items) (numbers : List ℕ)
    → integers minimum items ≡ some numbers
    → All (λ n. minimum ≤ n) numbers
unfolding integers
integers-All minimum Json.nil numbers h = subst (All (λ n. minimum ≤ n)) (eq_of_some-eq h) tt
integers-All minimum (Json.cons item items) numbers h =
    let (n, rest, e, f, g) =
      cons_inverse (int_from minimum item_of) (integers minimum items) numbers h in
    subst (All (λ n. minimum ≤ n)) g
      (int_from-le minimum n item_of e, integers-All minimum items rest f)
  where
    item_of : Option Value
    item_of = some item

selector-All :
    (value : Value) (minimum : ℕ) (numbers : List ℕ)
    → integer_selector value minimum ≡ some numbers
    → All (λ n. minimum ≤ n) numbers
unfolding integer_selector
selector-All (Json.array items) minimum numbers h = grind (arith, integers-All)
selector-All Json.null minimum numbers h = cc
selector-All (Json.boolean b) minimum numbers h = cc
selector-All (Json.int n) minimum numbers h = cc
selector-All (Json.float x) minimum numbers h = cc
selector-All (Json.text t) minimum numbers h = cc
selector-All (Json.object fields) minimum numbers h = cc

All-within :
    (numbers : List ℕ)
    → All (λ n. 1 ≤ n) numbers
    → all_of (λ n. leb n 10) numbers ≡ true
    → All (λ n. (1 ≤ n) × (n ≤ 10)) numbers
All-within [] h k = tt
All-within (n ∷ numbers) (p, h) k =
    ((p, ground (arith, k)), All-within numbers h (ground (arith, k)))

-- What a rule takes from its fields.
rule_of-fields :
    (known : Option Bool) (name : Option String) (fault : Option Fault) (probability : Option Ratio)
    (case_ids : Option (List String)) (iterations attempts : Option (List ℕ))
    (extras : Fault → Option (Option ℕ × Option ℕ × String)) (rule : FaultRuleConfig)
    → rule_of known name fault probability case_ids iterations attempts extras ≡ some rule
    → (probability ≡ some rule.probability)
      × (attempts ≡ some rule.attempts)
      × (all_of (λ n. leb n 10) rule.attempts ≡ true)
      × (extras rule.fault ≡ some (rule.delay_ms, rule.status_code, rule.tool_name))
unfolding rule_of
rule_of-fields known name fault probability case_ids iterations attempts extras rule h = grind arith

rule_fields-IsValidRule :
    (fields : Fields) (rule : FaultRuleConfig) → rule_fields fields ≡ some rule → IsValidRule rule
unfolding rule_fields
rule_fields-IsValidRule fields rule h =
    let (p, a, k, e) = rule_of-fields _ _ _ _ _ _ _ _ rule h in
    record {
      probability = ratio_bounds _ rule.probability p;
      attempts = All-within rule.attempts (selector-All _ 1 rule.attempts a) k;
      fields =
          fault_fields-HasFields rule.fault (get "delayMs" fields) (get "statusCode" fields)
            (get "toolName" fields) rule.delay_ms rule.status_code rule.tool_name e;
    }

parse_fault_rule-IsValidRule :
    (value : Value) (rule : FaultRuleConfig) → parse_fault_rule value ≡ some rule → IsValidRule rule
unfolding parse_fault_rule
parse_fault_rule-IsValidRule (Json.object fields) rule h = rule_fields-IsValidRule fields rule h
parse_fault_rule-IsValidRule Json.null rule h = cc
parse_fault_rule-IsValidRule (Json.boolean b) rule h = cc
parse_fault_rule-IsValidRule (Json.int n) rule h = cc
parse_fault_rule-IsValidRule (Json.float x) rule h = cc
parse_fault_rule-IsValidRule (Json.text t) rule h = cc
parse_fault_rule-IsValidRule (Json.array items) rule h = cc

parse_rules-IsValidRule :
    (items : Items) (rules : List FaultRuleConfig)
    → parse_rules items ≡ some rules
    → All IsValidRule rules
unfolding parse_rules
parse_rules-IsValidRule Json.nil rules h = subst (All IsValidRule) (eq_of_some-eq h) tt
parse_rules-IsValidRule (Json.cons item items) all h =
    let (rule, rules, e, f, g) = cons_inverse (parse_fault_rule item) (parse_rules items) all h in
    subst (All IsValidRule) g
      (parse_fault_rule-IsValidRule item rule e, parse_rules-IsValidRule items rules f)

pub record IsValidScenario (rules : List FaultRuleConfig) : Type 0 where
  pub few : length rules ≤ 100
  pub distinct : are_unique (map (λ r. r.name) rules) ≡ true
  pub valid : All IsValidRule rules

scenario_rules-IsValid :
    (value : Option Value) (rules : List FaultRuleConfig)
    → scenario_rules value ≡ some rules
    → IsValidScenario rules
unfolding scenario_rules rules_in
scenario_rules-IsValid value rules h = grind (arith, parse_rules-IsValidRule)

pub snapshot-rules :
    (fields : Fields) (scenario : FaultScenarioConfig)
    → snapshot_fields fields ≡ some scenario
    → scenario_rules (get "scenario" fields) ≡ some scenario.rules
unfolding snapshot_fields
snapshot-rules fields scenario h = grind arith

pub lifted_inverse {ℓ} :
    {A : Type ℓ} (o : Option A) (a : A) → (o >>= λ x. some (some x)) ≡ some (some a) → o ≡ some a
lifted_inverse none a h = cc
lifted_inverse (some x) a h = cc

snapshot-IsValid :
    (fields : Fields) (scenario : FaultScenarioConfig)
    → snapshot_fields fields ≡ some scenario
    → IsValidScenario scenario.rules
snapshot-IsValid fields scenario h =
    scenario_rules-IsValid (get "scenario" fields) scenario.rules (snapshot-rules fields scenario h)

pub scenario-IsValid :
    (value : Option Value) (scenario : FaultScenarioConfig)
    → parse_scenario value ≡ some (some scenario)
    → IsValidScenario scenario.rules
unfolding parse_scenario
scenario-IsValid none scenario h = cc
scenario-IsValid (some (Json.object fields)) scenario h =
    snapshot-IsValid fields scenario (lifted_inverse (snapshot_fields fields) scenario h)
scenario-IsValid (some Json.null) scenario h = cc
scenario-IsValid (some (Json.boolean b)) scenario h = cc
scenario-IsValid (some (Json.int n)) scenario h = cc
scenario-IsValid (some (Json.float x)) scenario h = cc
scenario-IsValid (some (Json.text t)) scenario h = cc
scenario-IsValid (some (Json.array items)) scenario h = cc
