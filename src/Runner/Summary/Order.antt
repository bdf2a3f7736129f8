-- ===== src/Runner/Summary/Order.antt =====
-- runner.py: the summary and the order in which the tasks append their results.
use agent_storm.Prelude.{
  ℕ, String, ◌≤◌, ◌<◌, ◌^◌, sum_of, false, List, [], ◌∷◌, ◌≡◌, refl, sym, ap₂, ◌∙◌, arith,
  if◌then◌else◌, is_some, or_zero, is_empty, map, All,
}
use agent_storm.Prelude.Shuffles.{
  Permᴰ, length-Perm, sum_of-Perm, all_of-Perm, keep-Perm, map-Perm, count-Perm,
}
use agent_storm.Config.{EvaluationConfig}
use agent_storm.Pricing.Order.{sum_costs-Perm}
use agent_storm.Runner.Records.{CaseResult}
use agent_storm.Runner.Workers.{start, Pool, Reach}
use agent_storm.Runner.Workers.Once.{IsGone, executed_every}
use agent_storm.Runner.Summary.{insert_sorted, sorted, p95, known_model_calls, summarize}

insert_swap :
    (x y : ℕ) (l : List ℕ)
    → insert_sorted x (insert_sorted y l) ≡ insert_sorted y (insert_sorted x l)
unfolding insert_sorted
insert_swap x y [] = ground arith
insert_swap x y (z ∷ l) = ground (arith, insert_swap x y l)

sorted-Perm : {xs ys : List ℕ} → Permᴰ xs ys → sorted xs ≡ sorted ys
unfolding sorted
sorted-Perm Permᴰ.nil = refl
sorted-Perm (Permᴰ.cons e p) = ap₂ insert_sorted e (sorted-Perm p)
sorted-Perm (Permᴰ.swap {a} {b} {l = l} d e) = rw (← d, ← e) (insert_swap a b (sorted l))
sorted-Perm (Permᴰ.trans p q) = sorted-Perm p ∙ sorted-Perm q

p95-Perm : {xs ys : List ℕ} → Permᴰ xs ys → p95 xs ≡ p95 ys
unfolding p95
p95-Perm p = rw (sorted-Perm p) refl

is_empty-Perm : {xs ys : List CaseResult} → Permᴰ xs ys → is_empty xs ≡ is_empty ys
is_empty-Perm Permᴰ.nil = refl
is_empty-Perm (Permᴰ.cons e p) = refl
is_empty-Perm (Permᴰ.swap d e) = refl
is_empty-Perm (Permᴰ.trans p q) = is_empty-Perm p ∙ is_empty-Perm q

known_model_calls-Perm :
    {xs ys : List CaseResult} → Permᴰ xs ys → known_model_calls xs ≡ known_model_calls ys
unfolding known_model_calls
known_model_calls-Perm p =
    rw
      (
        all_of-Perm (λ r. is_some r.model_call_count) p,
        sum_of-Perm (λ r. or_zero r.model_call_count) p,
      )
      refl

-- The known costs add up to fewer than 29 digits in the unit of 10 ^ -12 USD.
pub record HasSums (results : List CaseResult) : Type 0 where
  pub input : sum_of or_zero (map (λ r. r.input_cost) results) < 10 ^ 28
  pub output : sum_of or_zero (map (λ r. r.output_cost) results) < 10 ^ 28
  pub total : sum_of or_zero (map (λ r. r.total_cost) results) < 10 ^ 28

module _ (run_id : String) (shard_index shard_count : ℕ) (evaluation : EvaluationConfig) where
  -- The summary of the same results in another order is the same, but for the duration.
  pub summarize-Perm :
      (xs ys : List CaseResult) (duration duration' : ℕ)
      → Permᴰ xs ys
      → HasSums xs
      → summarize run_id shard_index shard_count xs evaluation duration
        ≡ record (summarize run_id shard_index shard_count ys evaluation duration') {
          duration = duration;
        }
  unfolding summarize
  summarize-Perm xs ys duration duration' p h =
      rw
        (
          length-Perm p,
          sum_of-Perm (λ r. if r.success then 1 else 0) p,
          p95-Perm (map-Perm (λ r. r.latency) p),
          sum_of-Perm (λ r. r.input_tokens) p,
          sum_of-Perm (λ r. r.output_tokens) p,
          known_model_calls-Perm p,
          sum_of-Perm (λ r. r.tool_call_count) p,
          is_empty-Perm (keep-Perm (λ r. r.success) p),
          known_model_calls-Perm (keep-Perm (λ r. r.success) p),
          sum_of-Perm (λ r. r.tool_call_count) (keep-Perm (λ r. r.success) p),
          sum_costs-Perm (map-Perm (λ r. r.input_cost) p) h.input,
          sum_costs-Perm (map-Perm (λ r. r.output_cost) p) h.output,
          sum_costs-Perm (map-Perm (λ r. r.total_cost) p) h.total,
          all_of-Perm (λ r. r.usage_complete) p,
        )
        refl

-- Two runs of the same work that were not stopped, each with its own number of tasks and its own
-- interleaving: once all tasks have returned, the summaries are equal but for the duration, where
-- each item of the work had the same result in both and the known costs add up to fewer than 29
-- digits, which the decimal context does not round.
pub summary_any_interleaving :
    (run_id : String) (shard_index shard_count : ℕ) (evaluation : EvaluationConfig)
    (outcome : ℕ → CaseResult) (n : ℕ) (concurrency concurrency' : ℕ) (p q : Pool)
    (elapsed elapsed' : ℕ)
    → 1 ≤ concurrency
    → 1 ≤ concurrency'
    → Reach n (start concurrency n) p
    → Reach n (start concurrency' n) q
    → p.stopped ≡ false
    → q.stopped ≡ false
    → All IsGone p.tasks
    → All IsGone q.tasks
    → HasSums (map outcome p.results)
    → summarize run_id shard_index shard_count (map outcome p.results) evaluation elapsed
      ≡ record (summarize run_id shard_index shard_count
          (map outcome q.results)
          evaluation
          elapsed') { duration = elapsed }
summary_any_interleaving run_id shard_index shard_count evaluation outcome n c c' p q d d' h h' r r'
      s s' g g' sums =
    summarize-Perm run_id shard_index shard_count evaluation (map outcome p.results)
      (map outcome q.results) d d'
      (map-Perm outcome (
        count-Perm p.results q.results
          (λ i. executed_every c n p i h r s g ∙ sym (executed_every c' n q i h' r' s' g'))))
      sums
