-- ===== src/Runner/Summary/Thresholds.antt =====
-- runner.py: what the summary counts, and when the thresholds pass.
use agent_storm.Prelude.{
  String, ℕ, suc, ◌+◌, ◌*◌, ◌≤◌, ◌<◌, Bool, true, false, Option, none, some, List, [], ◌∷◌, ◌++◌,
  ◌≡◌, ◌↔◌, refl, inl, inr, arith, ltb, if◌then◌else◌, is_empty, length, Bool-cases, sum_of,
}
use agent_storm.Prelude.Int.{ℤ, pos, negsuc}
use agent_storm.Models.Json
use agent_storm.Config.{EvaluationConfig}
use agent_storm.Circuit.{nanoseconds}
use agent_storm.Runner.Records.{CaseResult}
use agent_storm.Runner.Summary.{
  Rate, rate, is_below, is_above, is_slower, fails_if, threshold_failures, ThresholdFailure,
  success_rate, error_rate, p95_latency, summarize,
}

successes-le :
    (results : List CaseResult) → sum_of (λ r. if r.success then 1 else 0) results ≤ length results
successes-le [] = omega arith
successes-le (r ∷ results) = ground (arith, successes-le results)

-- The summary counts every result as succeeded or as failed, and its rates are of the same whole:
-- they add up to one, or are both 0 of 1 where there is no result.
pub summarize_counts :
    (run_id : String) (shard_index shard_count : ℕ) (results : List CaseResult)
    (evaluation : EvaluationConfig) (duration : ℕ)
    → let s = summarize run_id shard_index shard_count results evaluation duration in
      (s.succeeded + s.failed ≡ length results)
      × (s.success.whole ≡ s.error.whole)
      × (0 < length results → s.success.part + s.error.part ≡ s.success.whole)
      × (length results ≡ 0 → (s.success.part ≡ 0) × (s.error.part ≡ 0))
unfolding summarize rate
summarize_counts run_id shard_index shard_count results evaluation duration =
    ground (arith, successes-le results)

-- A limit that is not set, or that holds.
abbrev pub Holds {ℓ} : {A : Type ℓ} → Option A → (A → Type 0) → Type 0
Holds none P = Unit
Holds (some limit) P = P limit

fails_if_iff {ℓ} :
    {A : Type ℓ} (failure : ThresholdFailure) (test : A → Bool) (P : A → Type 0) (limit : Option A)
    → ((a : A) → (test a ≡ false) ↔ P a)
    → (is_empty (fails_if failure test limit) ≡ true) ↔ Holds limit P
unfolding fails_if
fails_if_iff failure test P none h = (λ e. tt, λ e. refl)
fails_if_iff failure test P (some a) h = elim (Bool-cases (test a)) [
  | inl e ↦ rw e ((λ f. cc), (λ p. let wrong : test a ≡ false = (h a).1 p in cc))
  | inr e ↦ rw e ((λ f. (h a).0 e), (λ p. refl))
]

is_empty-append :
    (xs ys : List ThresholdFailure)
    → (is_empty (xs ++ ys) ≡ true) ↔ ((is_empty xs ≡ true) × (is_empty ys ≡ true))
is_empty-append [] ys = (λ e. (refl, e), λ e. e.1)
is_empty-append (x ∷ xs) ys = (λ e. cc, λ e. cc)

not_ltb_iff : (a b : ℕ) → (ltb a b ≡ false) ↔ (b ≤ a)
not_ltb_iff a b = (λ h. ground arith, λ h. ground arith)

-- What the tests on a threshold ask.
abbrev pub IsAtLeast : Json.Float → Rate → Type 0
IsAtLeast (Json.finite (pos n) over) r = n * r.whole ≤ r.part * suc over
IsAtLeast (Json.finite (negsuc n) over) r = Unit
IsAtLeast (Json.infinite positive) r = positive ≡ false
IsAtLeast Json.nan r = Unit

abbrev pub IsAtMost : Json.Float → Rate → Type 0
IsAtMost (Json.finite (pos n) over) r = r.part * suc over ≤ n * r.whole
IsAtMost (Json.finite (negsuc n) over) r = ⊥
IsAtMost (Json.infinite positive) r = positive ≡ true
IsAtMost Json.nan r = Unit

abbrev pub IsWithin : ℤ → ℕ → Type 0
IsWithin (pos ms) p95_ns = p95_ns ≤ nanoseconds ms
IsWithin (negsuc n) p95_ns = ⊥

below_iff : (r : Rate) (l : Json.Float) → (is_below r l ≡ false) ↔ IsAtLeast l r
unfolding is_below
below_iff r (Json.finite (pos n) over) = not_ltb_iff (r.part * suc over) (n * r.whole)
below_iff r (Json.finite (negsuc n) over) = (λ h. tt, λ h. refl)
below_iff r (Json.infinite positive) = (λ h. h, λ h. h)
below_iff r Json.nan = (λ h. tt, λ h. refl)

above_iff : (r : Rate) (l : Json.Float) → (is_above r l ≡ false) ↔ IsAtMost l r
unfolding is_above
above_iff r (Json.finite (pos n) over) = not_ltb_iff (n * r.whole) (r.part * suc over)
above_iff r (Json.finite (negsuc n) over) = (λ h. cc, λ h. absurd h)
above_iff r (Json.infinite true) = (λ h. refl, λ h. refl)
above_iff r (Json.infinite false) = (λ h. cc, λ h. cc)
above_iff r Json.nan = (λ h. tt, λ h. refl)

slower_iff : (p95_ns : ℕ) (l : ℤ) → (is_slower p95_ns l ≡ false) ↔ IsWithin l p95_ns
unfolding is_slower
slower_iff p95_ns (pos ms) = not_ltb_iff (nanoseconds ms) p95_ns
slower_iff p95_ns (negsuc n) = (λ h. cc, λ h. absurd h)

threshold_failures_iff :
    (evaluation : EvaluationConfig) (success error : Rate) (p95_ns : ℕ)
    → (is_empty (threshold_failures evaluation success error p95_ns) ≡ true) ↔ (
        Holds evaluation.min_success_rate (λ l. IsAtLeast l success)
        × Holds evaluation.max_error_rate (λ l. IsAtMost l error)
        × Holds evaluation.max_p95_latency_ms (λ l. IsWithin l p95_ns))
unfolding threshold_failures
threshold_failures_iff evaluation success error p95_ns =
    let below =
      fails_if_iff success_rate (is_below success) (λ l. IsAtLeast l success)
        evaluation.min_success_rate (below_iff success) in
    let above =
      fails_if_iff error_rate (is_above error) (λ l. IsAtMost l error) evaluation.max_error_rate
        (above_iff error) in
    let slow =
      fails_if_iff p95_latency (is_slower p95_ns) (λ l. IsWithin l p95_ns)
        evaluation.max_p95_latency_ms (slower_iff p95_ns) in
    let split =
      is_empty-append (fails_if success_rate (is_below success) evaluation.min_success_rate) _ in
    let split' =
      is_empty-append (fails_if error_rate (is_above error) evaluation.max_error_rate)
        (fails_if p95_latency (is_slower p95_ns) evaluation.max_p95_latency_ms) in
    (
      λ e.
          let (a, rest) = split.0 e in
          let (b, c) = split'.0 rest in (below.0 a, above.0 b, slow.0 c),
      λ (a, b, c). split.1 (below.1 a, split'.1 (above.1 b, slow.1 c)),
    )

-- The thresholds pass exactly when no configured limit is broken: the success rate is at least the
-- minimum, the error rate at most the maximum, and the 95th percentile at most its maximum. A limit
-- that is NaN is never broken.
pub thresholds_iff :
    (run_id : String) (shard_index shard_count : ℕ) (results : List CaseResult)
    (evaluation : EvaluationConfig) (duration : ℕ)
    → let s = summarize run_id shard_index shard_count results evaluation duration in
      (s.thresholds_passed ≡ true) ↔ (
        Holds evaluation.min_success_rate (λ l. IsAtLeast l s.success)
        × Holds evaluation.max_error_rate (λ l. IsAtMost l s.error)
        × Holds evaluation.max_p95_latency_ms (λ l. IsWithin l s.p95_latency_ns))
unfolding summarize
thresholds_iff run_id shard_index shard_count results evaluation duration =
    let s = summarize run_id shard_index shard_count results evaluation duration in
    threshold_failures_iff evaluation s.success s.error s.p95_latency_ns
