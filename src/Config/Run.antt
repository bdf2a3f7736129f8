-- ===== src/Config/Run.antt =====
-- config.py: `load_run_config` and the sections that it reads besides `reliability`. `none` is an
-- exception.
pub mod Sections
pub mod Valid
use agent_storm.Prelude.{
  ℕ, zero, suc, ◌/◌, String, Bool, true, false, not, ◌&&◌, ◌||◌, Option, none, some, List, [], ◌∷◌,
  ◌>>=◌, guard, ◌==◌, leb, str_eq, if◌then◌else◌, has_text, is_blank, byte_count, is_reference,
  decimal_units, length,
}
use agent_storm.Prelude.Int.{ℤ, pos, negsuc}
use agent_storm.Models.{Value, Items, Fields}
use agent_storm.Models.Json
use agent_storm.Models.Json.{get}
use agent_storm.Config.{
  PricingConfig, TargetConfig, SourceConfig, DatasetConfig, WorkloadConfig, EvaluationConfig,
  TelemetryConfig, RunConfig, ReliabilityConfig,
}
use agent_storm.Config.Readers.{get_or, is_falsy, at_least, Python, str_of, text_or}
use agent_storm.Config.Reliability.{parse_reliability}
use agent_storm.Chat.Validators.{
  Url, validate_base_url, validate_pinned_model, validate_max_output_tokens,
  validate_http_retry_attempts, validate_http_retry_max_wait_seconds, validate_request_fields,
}

-- The integer of `n / (over + 1)` towards zero.
truncated : ℤ → ℕ → ℤ
truncated (pos n) over = pos (n / suc over)
truncated (negsuc n) over = elim (suc n / suc over) [ zero ↦ pos 0 | suc k ↦ negsuc k ]

-- `int(value)`
unfoldable pub int_of : Python → Value → Option ℤ
unfolding truncated
int_of py (Json.int n) = some n
int_of py (Json.boolean true) = some (pos 1)
int_of py (Json.boolean false) = some (pos 0)
int_of py (Json.float (Json.finite n over)) = some (truncated n over)
int_of py (Json.text s) = py.int_of_text s
int_of py _ = none

-- `float(value)`
unfoldable pub float_of : Python → Value → Option Json.Float
float_of py (Json.int n) = some (Json.finite n 0)
float_of py (Json.boolean true) = some (Json.finite (pos 1) 0)
float_of py (Json.boolean false) = some (Json.finite (pos 0) 0)
float_of py (Json.float x) = some x
float_of py (Json.text s) = py.float_of_text s
float_of py _ = none

-- `int(d.get(key) or default)`, and the test that it is positive.
unfoldable pub positive_or : Python → ℕ → Option Value → Option ℕ
unfolding int_of
positive_or py default none = some default
positive_or py default (some value) =
    if is_falsy (some value) then some default else (int_of py value >>= at_least 1)

-- The first of two keys that is there and not null.
present : Option Value → Option Value → Option Value
present none other = other
present (some Json.null) other = other
present (some value) other = some value

not_null : Option Value → Option Value
unfolding present
not_null value = present value none

converted : {A : Type 0} → (Value → Option A) → Option Value → Option (Option A)
converted convert none = some none
converted convert (some value) = do a ← convert value; some (some a)

-- `_optional_float` and `_optional_int`
unfoldable pub optional_float :
    Python → (first second : String) → Fields → Option (Option Json.Float)
unfolding present not_null converted float_of
optional_float py first second fields =
    converted (float_of py) (present (get first fields) (not_null (get second fields)))

unfoldable pub optional_int : Python → (first second : String) → Fields → Option (Option ℤ)
unfolding present not_null converted int_of
optional_int py first second fields =
    converted (int_of py) (present (get first fields) (not_null (get second fields)))

-- The value of the first of two keys that is there, null included.
given : Option Value → Option Value → Option Value
given none other = other
given (some value) other = some value

-- `_max_output_tokens` and the like.
unfoldable pub optional_setting :
    (Value → Option ℕ) → (first second : String) → Fields → Option (Option ℕ)
unfolding given converted
optional_setting validate first second target =
    converted validate (given (get first target) (get second target))

-- `_request_fields`
unfoldable pub request_fields_of : Python → Fields → Option Fields
unfolding given
request_fields_of py target =
    validate_request_fields py ("temperature" ∷ "max_tokens" ∷ [])
      (given (get "requestFields" target) (get "request_fields" target))

-- A text that `_PRICE_PATTERN` matches, with its units.
price_of : Option Value → Option (String × ℕ)
price_of (some (Json.text s)) = do units ← decimal_units s; some (s, units)
price_of _ = none

-- `_pricing`
unfoldable pub pricing_of : Option Value → Option (Option PricingConfig)
unfolding price_of
pricing_of none = some none
pricing_of (some Json.null) = some none
pricing_of (some (Json.object fields)) = do
  input ← price_of (get "inputUSDPerMillionTokens" fields)
  output ← price_of (get "outputUSDPerMillionTokens" fields)
  some (
      some (record {
        input_text = input.0;
        output_text = output.0;
        input_usd_per_million_tokens = input.1;
        output_usd_per_million_tokens = output.1;
      }))
pricing_of (some _) = none

-- A section that must have a `get` method.
unfoldable pub section_of : String → Fields → Option Fields
section_of key raw = elim (get key raw) [
  | none ↦ some Json.end
  | some (Json.object fields) ↦ some fields
  | some _ ↦ none
]

patterns_of : Python → Items → Option (List String)
patterns_of py Json.nil = some []
patterns_of py (Json.cons (Json.text s) items) = do
  usable ← guard (leb (byte_count s) 256 && py.compiles s)
  rest ← patterns_of py items
  some (s ∷ rest)
patterns_of py (Json.cons _ items) = none

keys_of : Items → Option (List String)
keys_of Json.nil = some []
keys_of (Json.cons (Json.text s) items) = do
  present ← guard (not (str_eq s ""))
  rest ← keys_of items
  some (s ∷ rest)
keys_of (Json.cons _ items) = none

items_in : Value → Option Items
items_in (Json.array items) = some items
items_in _ = none

mode_of : Value → Option String
mode_of (Json.text s) = do known ← guard (has_text s ("omit" ∷ "redacted" ∷ [])); some s
mode_of _ = none

-- A dictionary, or null for an empty one.
object_or_null : Value → Option Fields
object_or_null Json.null = some Json.end
object_or_null (Json.object fields) = some fields
object_or_null _ = none

unfoldable pub redaction_of : Python → String → Fields → Option TelemetryConfig
unfolding patterns_of keys_of items_in
redaction_of py mode redaction = do
  pattern_items ← items_in (get_or "patterns" (Json.array Json.nil) redaction)
  patterns ← patterns_of py pattern_items
  few ← guard (leb (length patterns) 20)
  key_items ←
      items_in
        (get_or "metadataKeys" (get_or "metadata_keys" (Json.array Json.nil) redaction) redaction)
  keys ← keys_of key_items
  some (record { content_mode = mode; patterns = patterns; metadata_keys = keys })

-- `_telemetry`
unfoldable pub telemetry_of : Python → Value → Option TelemetryConfig
unfolding mode_of object_or_null
telemetry_of py value = do
  fields ← object_or_null value
  mode ← mode_of (get_or "contentMode" (get_or "content_mode" (Json.text "omit") fields) fields)
  redaction ← object_or_null (get_or "redaction" (Json.object Json.end) fields)
  redaction_of py mode redaction

-- `str(d.get(first) or d.get(second) or "")`
either_text : Python → Option Value → Option Value → String
either_text py first second = if is_falsy first then text_or py "" second else text_or py "" first

unfoldable pub target_of : Python → Fields → Option TargetConfig
unfolding either_text
target_of py target = do
  pricing ← pricing_of (get "pricing" target)
  max_output ← optional_setting validate_max_output_tokens "maxTokens" "max_output_tokens" target
  fields ← request_fields_of py target
  attempts ←
      optional_setting validate_http_retry_attempts "httpRetryAttempts" "http_retry_attempts" target
  wait ←
      optional_setting validate_http_retry_max_wait_seconds "httpRetryMaxWaitSeconds"
        "http_retry_max_wait_seconds" target
  some (record {
    provider = text_or py "fake" (get "provider" target);
    model = text_or py "" (get "model" target);
    base_url = either_text py (get "baseURL" target) (get "base_url" target);
    adapter_entrypoint =
        either_text py (get "adapterEntrypoint" target) (get "adapter_entrypoint" target);
    pricing = pricing;
    max_output_tokens = max_output;
    request_fields = fields;
    http_retry_attempts = attempts;
    http_retry_max_wait_seconds = wait;
  })

-- The workload with the two tests that its numbers are positive.
unfoldable pub workload_of : Python → Fields → Option WorkloadConfig
workload_of py workload = do
  concurrency ← positive_or py 1 (get "concurrency" workload)
  iterations ← positive_or py 1 (get "iterations" workload)
  timeout ← positive_or py 900 (get "timeout_seconds" workload)
  some (record { concurrency = concurrency; iterations = iterations; timeout_seconds = timeout })

unfoldable pub evaluation_of : Python → Fields → Option EvaluationConfig
evaluation_of py evaluation = do
  success ← optional_float py "minSuccessRate" "min_success_rate" evaluation
  error ← optional_float py "maxErrorRate" "max_error_rate" evaluation
  latency ← optional_int py "maxP95LatencyMs" "max_p95_latency_ms" evaluation
  some (record { min_success_rate = success; max_error_rate = error; max_p95_latency_ms = latency })

-- The tests on the provider.
unfoldable pub is_usable_target : (urlsplit : String → Option Url) → TargetConfig → Option Bool
is_usable_target urlsplit target =
    if str_eq target.provider "openai-compatible"
    then (do
      pinned ← validate_pinned_model target.model
      addressed ← guard (not (str_eq target.base_url ""))
      validate_base_url urlsplit target.base_url)
    else guard (not (str_eq target.provider "openai-agents" && is_blank target.model))

unfoldable pub is_usable_entrypoint : String → Bool
is_usable_entrypoint entrypoint =
    str_eq entrypoint "" || (leb (byte_count entrypoint) 256 && is_reference entrypoint)

-- The end of `load_run_config`: the other two sections and the tests on the whole.
unfoldable pub checked_run_of :
    Python
    → (urlsplit : String → Option Url) (raw source dataset : Fields) → TargetConfig
    → WorkloadConfig
    → EvaluationConfig
    → Option RunConfig
checked_run_of py urlsplit raw source dataset target workload evaluation = do
  telemetry ← telemetry_of py (get_or "telemetry" (Json.object Json.end) raw)
  reliability ← parse_reliability (get "reliability" raw)
  usable ← is_usable_target urlsplit target
  referenced ← guard (is_usable_entrypoint target.adapter_entrypoint)
  some (
      let run_id = text_or py "local-run" (get "run_id" raw) in
      record {
        run_id = run_id;
        source = record {
          namespace = text_or py "local" (get "namespace" source);
          name = text_or py run_id (get "name" source);
        };
        dataset = record {
          name = text_or py "local-dataset" (get "name" dataset);
          key = text_or py "cases.jsonl" (get "key" dataset);
        };
        target = target;
        workload = workload;
        evaluation = evaluation;
        telemetry = telemetry;
        reliability = reliability;
      })

-- `load_run_config`, of the parsed file.
unfoldable pub load_run_config :
    Python → (urlsplit : String → Option Url) → Fields → Option RunConfig
load_run_config py urlsplit raw = do
  source ← section_of "source" raw
  dataset ← section_of "dataset" raw
  target_fields ← section_of "target" raw
  workload_fields ← section_of "workload" raw
  evaluation_fields ← section_of "evaluation" raw
  target ← target_of py target_fields
  workload ← workload_of py workload_fields
  evaluation ← evaluation_of py evaluation_fields
  checked_run_of py urlsplit raw source dataset target workload evaluation
