-- ===== src/Models.antt =====
-- worker/src/agentstorm_worker/models.py: the records that the worker passes about.
-- Token and call counts are naturals, latencies are nanoseconds, costs are in units of 10 ^ -12 USD,
-- and `dict[str, Any]` metadata is a dictionary of JSON values.
pub mod Json
pub use Json.{Value, Items, Fields}
use agent_storm.Prelude.{ℕ, String, Bool, Option, none, some, List, [], ◌∷◌, ◌++◌, Dict}

pub record AdapterResponse : Type 0 where
  pub output : String
  pub input_tokens : Option ℕ
  pub output_tokens : Option ℕ
  pub model_call_count : Option ℕ
  pub tool_call_count : Option ℕ
  pub metadata : Dict Value

-- The `type` of an assertion with the fields that the validation lets it have. `schema`, `config`
-- and `entrypoint` are handed to code outside the repository.
pub data AssertionSpec : Type 0 where
  exact contains : (value : String) → AssertionSpec
  regex : (pattern : String) → AssertionSpec
  json_schema : (schema : Value) → AssertionSpec
  tool_path : (path : List String) → AssertionSpec
  latency : (max_ms : Json.Float) → AssertionSpec
  python : (entrypoint : String) (config : Fields) → AssertionSpec

pub record AssertionOutcome : Type 0 where
  pub index : ℕ
  pub type : String
  pub passed : Bool
  pub reason_code : String
  pub message : Option String

pub record TestCase : Type 0 where
  pub case_id : String
  pub prompt : String
  pub expected_contains : Option String
  pub assertions : List AssertionSpec
  pub metadata : Dict Value

-- `effective_assertions`
unfoldable pub effective_assertions : TestCase → List AssertionSpec
effective_assertions test = elim test.expected_contains [
  | some value ↦ contains value ∷ test.assertions
  | none ↦ test.assertions
]
