-- ===== src/Runner/Summary.antt =====
-- runner.py: `summarize`. Latencies and the duration are nanoseconds and rates exact fractions; `len * 0.95` is exact,
-- and its ceiling is (95 * len + 99) / 100. The texts of the threshold failures are not built: a
-- failure is the threshold that it names.
pub mod Percentile
pub mod Thresholds
pub mod Order
use agent_storm.Prelude.{
  ℕ, zero, suc, ◌+◌, ◌-◌, ◌*◌, ◌/◌, String, Bool, true, false, not, ◌&&◌, Option, none, some, List,
  [], ◌∷◌, ◌++◌, ◌==◌, ltb, leb, if◌then◌else◌, is_some, is_empty, or_zero, length, sum_of, all_of,
  keep, map,
}
use agent_storm.Prelude.Int.{ℤ, pos, negsuc}
use agent_storm.Models.Json
use agent_storm.Config.{EvaluationConfig}
use agent_storm.Circuit.{nanoseconds}
use agent_storm.Pricing.{sum_costs}
use agent_storm.Runner.Records.{CaseResult}

-- `sorted`
insert_sorted : ℕ → List ℕ → List ℕ
insert_sorted x [] = x ∷ []
insert_sorted x (y ∷ ys) = if leb x y then x ∷ y ∷ ys else y ∷ insert_sorted x ys

sorted : List ℕ → List ℕ
unfolding insert_sorted
sorted [] = []
sorted (x ∷ xs) = insert_sorted x (sorted xs)

-- `xs[i]`, for an index in range.
nth : List ℕ → ℕ → ℕ
nth [] i = 0
nth (x ∷ xs) zero = x
nth (x ∷ xs) (suc i) = nth xs i

p95_index : ℕ → ℕ
p95_index n = (95 * n + 99) / 100 - 1

-- `latencies[max(0, math.ceil(len(latencies) * 0.95) - 1)] if latencies else 0.0`
unfoldable pub p95 : List ℕ → ℕ
unfolding sorted nth p95_index
p95 values =
    let latencies = sorted values in
    if is_empty latencies then 0 else nth latencies (p95_index (length latencies))

-- A share of the results: 0 of 1 where there are none.
pub record Rate : Type 0 where
  pub part : ℕ
  pub whole : ℕ

pub rate : ℕ → ℕ → Rate
rate part total =
    if total == 0 then record { part = 0; whole = 1 } else record { part = part; whole = total }

-- `rate < limit`
is_below : Rate → Json.Float → Bool
is_below r (Json.finite (pos n) over) = ltb (r.part * suc over) (n * r.whole)
is_below r (Json.finite (negsuc n) over) = false
is_below r (Json.infinite positive) = positive
is_below r Json.nan = false

-- `rate > limit`
is_above : Rate → Json.Float → Bool
is_above r (Json.finite (pos n) over) = ltb (n * r.whole) (r.part * suc over)
is_above r (Json.finite (negsuc n) over) = true
is_above r (Json.infinite positive) = not positive
is_above r Json.nan = false

-- `p95 > limit`
is_slower : ℕ → ℤ → Bool
is_slower p95_ns (pos ms) = ltb (nanoseconds ms) p95_ns
is_slower p95_ns (negsuc n) = true

pub data ThresholdFailure : Type 0 where
  success_rate error_rate p95_latency : ThresholdFailure

-- One of the three tests.
fails_if {ℓ} : {A : Type ℓ} → ThresholdFailure → (A → Bool) → Option A → List ThresholdFailure
fails_if failure test none = []
fails_if failure test (some limit) = if test limit then failure ∷ [] else []

unfoldable pub threshold_failures :
    EvaluationConfig → (success error : Rate) (p95_ns : ℕ) → List ThresholdFailure
unfolding fails_if is_below is_above is_slower
threshold_failures evaluation success error p95_ns =
    fails_if success_rate (is_below success) evaluation.min_success_rate
    ++ (fails_if error_rate (is_above error) evaluation.max_error_rate
        ++ fails_if p95_latency (is_slower p95_ns) evaluation.max_p95_latency_ms)

pub record RunSummary : Type 0 where
  pub run_id : String
  pub shard_index : ℕ
  pub shard_count : ℕ
  pub duration : ℕ
  pub total : ℕ
  pub succeeded : ℕ
  pub failed : ℕ
  pub success : Rate
  pub error : Rate
  pub p95_latency_ns : ℕ
  pub input_tokens : ℕ
  pub output_tokens : ℕ
  pub thresholds_passed : Bool
  pub threshold_failures : List ThresholdFailure
  pub model_call_count : Option ℕ
  pub tool_call_count : ℕ
  -- calls of the successful results, to be divided by their number
  pub successful_model_calls : Option ℕ
  pub successful_tool_calls : Option ℕ
  pub input_cost : Option ℕ
  pub output_cost : Option ℕ
  pub total_cost : Option ℕ
  pub usage_complete : Bool

-- `sum(...) if all(... is not None) else None`
known_model_calls : List CaseResult → Option ℕ
known_model_calls results =
    if all_of (λ r. is_some r.model_call_count) results
    then some (sum_of (λ r. or_zero r.model_call_count) results)
    else none

-- `summarize`
unfoldable pub summarize :
    (run_id : String) (shard_index shard_count : ℕ)
    → List CaseResult
    → EvaluationConfig
    → (duration : ℕ) → RunSummary
unfolding known_model_calls
summarize run_id shard_index shard_count results evaluation duration =
    let total = length results in
    let succeeded = sum_of (λ r. if r.success then 1 else 0) results in
    let failed = total - succeeded in
    let success = rate succeeded total in
    let error = rate failed total in
    let p95_ns = p95 (map (λ r. r.latency) results) in
    let failures = threshold_failures evaluation success error p95_ns in
    let successful = keep (λ r. r.success) results in
    record {
      run_id = run_id;
      shard_index = shard_index;
      shard_count = shard_count;
      duration = duration;
      total = total;
      succeeded = succeeded;
      failed = failed;
      success = success;
      error = error;
      p95_latency_ns = p95_ns;
      input_tokens = sum_of (λ r. r.input_tokens) results;
      output_tokens = sum_of (λ r. r.output_tokens) results;
      thresholds_passed = is_empty failures;
      threshold_failures = failures;
      model_call_count = known_model_calls results;
      tool_call_count = sum_of (λ r. r.tool_call_count) results;
      successful_model_calls = if is_empty successful then none else known_model_calls successful;
      successful_tool_calls =
          if succeeded == 0 then none else some (sum_of (λ r. r.tool_call_count) successful);
      input_cost = sum_costs (map (λ r. r.input_cost) results);
      output_cost = sum_costs (map (λ r. r.output_cost) results);
      total_cost = sum_costs (map (λ r. r.total_cost) results);
      usage_complete = all_of (λ r. r.usage_complete) results;
    }
