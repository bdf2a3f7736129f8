-- ===== src/Evaluators.antt =====
-- worker/src/agentstorm_worker/evaluators.py: the assertions on the output of a case. `re`,
-- `jsonschema`, `json.loads` and the functions of assertion plugins are a record of parameters.
pub mod Prepared
pub mod Answers
pub mod Verdicts
use agent_storm.Prelude.{
  ℕ, suc, ◌*◌, String, Bool, true, false, ◌&&◌, Option, none, some, List, [], ◌∷◌, ◌>>=◌, ◌==◌, leb,
  str_eq, if◌then◌else◌, concat, is_part, split_colon, Dict,
}
use agent_storm.Prelude.Int.{pos, negsuc}
use agent_storm.Models.{
  Value, Items, Fields, AssertionSpec, exact, contains, regex, json_schema, tool_path, latency,
  python, AssertionOutcome, TestCase, effective_assertions,
}
use agent_storm.Models.Json
use agent_storm.Models.Json.{get, texts}

-- A call that may raise; the text is `f"{type(exc).__name__}: {exc}"`.
pub data Raised {ℓ} (A : Type ℓ) : Type ℓ where
  returned : A → Raised A
  raised : (text : String) → Raised A

-- `json.loads`: a value, a JSONDecodeError, or another exception.
pub data Loaded : Type 0 where
  decoded : Value → Loaded
  not_json : (message : String) → Loaded
  loads_raised : (text : String) → Loaded

-- `validate`: no exception, a ValidationError, or another exception.
pub data Validated : Type 0 where
  valid : Validated
  violation : (message : String) → Validated
  validate_raised : (text : String) → Validated

-- An object that a plugin returns and that JSON has no form for stands as a number: it is no
-- boolean, no dictionary, no text and not None. `none` is an exception, or a function that is not
-- callable.
pub record Libraries (Pattern Validator Function : Type 0) : Type 0 where
  pub compile : String → Option Pattern
  pub search : Pattern → String → Bool
  pub check_schema : Value → Option Validator
  pub validate : Validator → Value → Validated
  pub loads : String → Loaded
  pub import_function : (module_name function_name : String) → Option Function
  pub call : Function → Fields → Fields → Raised Value
  pub key_error : String → ℕ → String

pub record EvaluationContext : Type 0 where
  pub case_id : String
  pub prompt : String
  pub output : String
  pub latency : ℕ
  pub tool_path : List String
  pub metadata : Dict Value

fields_of : Dict Value → Fields
fields_of [] = Json.end
fields_of ((k, v) ∷ d) = Json.field k v (fields_of d)

-- `to_dict`
unfoldable pub to_dict : EvaluationContext → Fields
unfolding fields_of
to_dict context = Json.field "case_id" (Json.text context.case_id) (
    Json.field "prompt" (Json.text context.prompt) (
      Json.field "output" (Json.text context.output) (
        Json.field "latency_ms" (Json.float (Json.finite (pos context.latency) 999_999)) (
          Json.field "tool_path" (Json.array (texts context.tool_path))
            (Json.field "metadata" (Json.object (fields_of context.metadata)) Json.end)))))

-- `xs == ys`
unfoldable pub texts_eq : List String → List String → Bool
texts_eq [] [] = true
texts_eq (x ∷ xs) (y ∷ ys) = str_eq x y && texts_eq xs ys
texts_eq _ _ = false

-- A `dict` with keys `(case_id, index)`, the latest entry first.
abbrev pub Keyed : Type 0 → Type 0
Keyed V = List (String × ℕ × V)

unfoldable pub find : {V : Type 0} → String → ℕ → Keyed V → Option V
find case_id index [] = none
find case_id index ((c, i, v) ∷ d) =
    if str_eq c case_id && i == index then some v else find case_id index d

pub record Verdict : Type 0 where
  pub passed : Bool
  pub reason_code : String
  pub message : Option String

abbrev pub verdict : Bool → (otherwise : String) → Option String → Verdict
verdict passed otherwise message = record {
  passed = passed;
  reason_code = if passed then "passed" else otherwise;
  message = message;
}

-- `latency_ms <= max_ms`, for a latency in nanoseconds.
unfoldable pub is_within : ℕ → Json.Float → Bool
is_within ns (Json.finite (pos n) over) = leb (ns * suc over) (n * 1_000_000)
is_within ns (Json.finite (negsuc n) over) = false
is_within ns (Json.infinite positive) = positive
is_within ns Json.nan = false

not_a_result : Raised Verdict
not_a_result = raised "TypeError: python assertion must return bool or a passed/message object"

-- What a plugin's dictionary says.
with_message : Bool → Option Value → Raised Verdict
with_message passed none = returned (verdict passed "mismatch" none)
with_message passed (some Json.null) = returned (verdict passed "mismatch" none)
with_message passed (some (Json.text s)) = returned (verdict passed "mismatch" (some s))
with_message passed (some _) = raised "TypeError: python assertion message must be a string"

passed_field : Option Value → Option Value → Raised Verdict
unfolding with_message not_a_result
passed_field (some (Json.boolean passed)) message = with_message passed message
passed_field _ message = not_a_result

-- The tests on what a plugin returned.
pub plugin_verdict : Raised Value → Raised Verdict
unfolding passed_field not_a_result
plugin_verdict (raised text) = raised text
plugin_verdict (returned (Json.boolean passed)) = returned (verdict passed "mismatch" none)
plugin_verdict (returned (Json.object fields)) =
    passed_field (get "passed" fields) (get "message" fields)
plugin_verdict (returned _) = not_a_result

module _ {Pattern Validator Function : Type 0}
    (libraries : Libraries Pattern Validator Function) where
  pub record Registry : Type 0 where
    pub regexes : Keyed Pattern
    pub schemas : Keyed Validator
    pub functions : Keyed Function

  -- The function of `entrypoint.split(":", 1)`.
  unfoldable pub plugin : (entrypoint : String) → Option Function
  plugin entrypoint = do
    (module_name, function_name) ← split_colon entrypoint
    libraries.import_function module_name function_name

  -- `_prepare`
  unfoldable pub prepare : String → ℕ → AssertionSpec → Registry → Option Registry
  prepare case_id index (regex pattern) r = do
    compiled ← libraries.compile pattern
    some (record r { regexes = (case_id, index, compiled) ∷ r.regexes })
  prepare case_id index (json_schema schema) r = do
    checked ← libraries.check_schema schema
    some (record r { schemas = (case_id, index, checked) ∷ r.schemas })
  prepare case_id index (python entrypoint config) r = do
    function ← plugin entrypoint
    some (record r { functions = (case_id, index, function) ∷ r.functions })
  prepare case_id index _ r = some r

  unfoldable pub prepare_case : String → ℕ → List AssertionSpec → Registry → Option Registry
  prepare_case case_id index [] r = some r
  prepare_case case_id index (spec ∷ specs) r = do
    prepared ← prepare case_id index spec r
    prepare_case case_id (suc index) specs prepared

  unfoldable pub prepare_all : List TestCase → Registry → Option Registry
  prepare_all [] r = some r
  prepare_all (test ∷ cases) r = do
    prepared ← prepare_case test.case_id 0 (effective_assertions test) r
    prepare_all cases prepared

  -- `__init__`; `none` is an exception.
  unfoldable pub registry_of : List TestCase → Option Registry
  registry_of cases = prepare_all cases (record { regexes = []; schemas = []; functions = [] })

  schema_verdict : Loaded → Option Validator → (missing : String) → Raised Verdict
  schema_verdict (not_json message) validator missing =
      returned (verdict false "invalid_json" (some message))
  schema_verdict (loads_raised text) validator missing = raised text
  schema_verdict (decoded value) none missing = raised missing
  schema_verdict (decoded value) (some validator) missing =
      elim (libraries.validate validator value) [
        | valid ↦ returned (verdict true "schema_violation" none)
        | violation message ↦ returned (verdict false "schema_violation" (some message))
        | validate_raised text ↦ raised text
      ]

  regex_verdict : Option Pattern → (output missing : String) → Raised Verdict
  regex_verdict none output missing = raised missing
  regex_verdict (some pattern) output missing =
      returned (verdict (libraries.search pattern output) "mismatch" none)

  python_verdict : Option Function → (context config : Fields) → (missing : String) → Raised Verdict
  unfolding plugin_verdict
  python_verdict none context config missing = raised missing
  python_verdict (some function) context config missing =
      plugin_verdict (libraries.call function context config)

  -- `_invoke`, with what the registry holds for the key.
  unfoldable pub invoke_with :
      Option Pattern
      → Option Validator
      → Option Function
      → (missing : String) → AssertionSpec
      → EvaluationContext
      → Raised Verdict
  unfolding schema_verdict regex_verdict python_verdict
  invoke_with pattern validator function missing (exact value) context =
      returned (verdict (str_eq context.output value) "mismatch" none)
  invoke_with pattern validator function missing (contains value) context =
      returned (verdict (is_part value context.output) "mismatch" none)
  invoke_with pattern validator function missing (regex _) context =
      regex_verdict pattern context.output missing
  invoke_with pattern validator function missing (json_schema _) context =
      schema_verdict (libraries.loads context.output) validator missing
  invoke_with pattern validator function missing (tool_path path) context =
      returned (verdict (texts_eq context.tool_path path) "path_mismatch" none)
  invoke_with pattern validator function missing (latency max_ms) context =
      returned (verdict (is_within context.latency max_ms) "latency_exceeded" none)
  invoke_with pattern validator function missing (python _ config) context =
      python_verdict function (to_dict context) config missing

  unfoldable pub invoke : Registry → String → ℕ → AssertionSpec → EvaluationContext → Raised Verdict
  invoke r case_id index spec context =
      invoke_with (find case_id index r.regexes) (find case_id index r.schemas)
        (find case_id index r.functions) (libraries.key_error case_id index) spec context

abbrev pub type_of : AssertionSpec → String
type_of (exact _) = "exact"
type_of (contains _) = "contains"
type_of (regex _) = "regex"
type_of (json_schema _) = "json_schema"
type_of (tool_path _) = "tool_path"
type_of (latency _) = "latency"
type_of (python _ _) = "python"

-- The result of `_evaluate_one`: an exception is a failed assertion.
unfoldable pub outcome_of : ℕ → (type : String) → Raised Verdict → AssertionOutcome
outcome_of index type (raised text) = record {
  index = index;
  type = type;
  passed = false;
  reason_code = "exception";
  message = some text;
}
outcome_of index type (returned v) = record {
  index = index;
  type = type;
  passed = v.passed;
  reason_code = v.reason_code;
  message = v.message;
}

module _ {Pattern Validator Function : Type 0}
    (libraries : Libraries Pattern Validator Function) where
  -- `_evaluate_one`
  unfoldable pub evaluate_one :
      Registry libraries → String → ℕ → AssertionSpec → EvaluationContext → AssertionOutcome
  evaluate_one r case_id index spec context =
      outcome_of index (type_of spec) (invoke libraries r case_id index spec context)

  unfoldable pub evaluate_from :
      Registry libraries
      → String
      → ℕ
      → List AssertionSpec
      → EvaluationContext
      → List AssertionOutcome
  evaluate_from r case_id index [] context = []
  evaluate_from r case_id index (spec ∷ specs) context =
      evaluate_one r case_id index spec context ∷ evaluate_from r case_id (suc index) specs context

  -- `evaluate`
  unfoldable pub evaluate :
      Registry libraries → TestCase → EvaluationContext → List AssertionOutcome
  evaluate r test context = evaluate_from r test.case_id 0 (effective_assertions test) context
