-- ===== src/Tests/Sums.antt =====
-- pricing.py, and the work and the summary of runner.py, at small inputs.
use agent_storm.Prelude.{
  ℕ, ◌+◌, ◌*◌, ◌≤◌, ◌<◌, true, false, none, some, List, [], ◌∷◌, ◌≡◌, ◌↔◌, refl, arith, length,
  sum_of, map, Dict, round_half_even,
}
use agent_storm.Tests.Fixtures.{pricing_config, evaluation_config}
use agent_storm.Models.{Value}
use agent_storm.Models.Json
use agent_storm.Pricing.{case_costs, million}
use agent_storm.Pricing.Rounding.{case_costs_near}
use agent_storm.Runner.Records.{CaseResult}
use agent_storm.Runner.Shards.{selected}
use agent_storm.Runner.Shards.Partition.{sum_below, selected_partition}
use agent_storm.Runner.Summary.{p95, summarize}
use agent_storm.Runner.Summary.Percentile.{count_le, p95_nearest_rank}
use agent_storm.Runner.Summary.Thresholds.{Holds, IsAtLeast, IsAtMost, IsWithin, thresholds_iff}
use agent_storm.Runner.Summary.Order.{summary_any_interleaving}
use agent_storm.Runner.Workers.{
  Task, Pool, Reach, start, idle, running, gone, takes, finishes, returns_empty, here, next,
}
use agent_storm.Runner.Workers.Once.{count, held, taken, executed_once, executed_every}

-- One task that ran the one item of the work.
abbrev drained : Pool
drained = record { next_index = 1; stopped = false; tasks = gone ∷ []; results = 0 ∷ [] }

abbrev taking : Pool
taking = record { next_index = 1; stopped = false; tasks = running 0 ∷ []; results = [] }

abbrev recorded : Pool
recorded = record { next_index = 1; stopped = false; tasks = idle ∷ []; results = 0 ∷ [] }

-- Two tasks, where the second one is faster.
abbrev both_running : Pool
both_running = record {
  next_index = 2;
  stopped = false;
  tasks = running 0 ∷ running 1 ∷ [];
  results = [];
}

abbrev first_running : Pool
first_running = record {
  next_index = 1;
  stopped = false;
  tasks = running 0 ∷ idle ∷ [];
  results = [];
}

abbrev one_recorded : Pool
one_recorded = record {
  next_index = 2;
  stopped = false;
  tasks = running 0 ∷ idle ∷ [];
  results = 1 ∷ [];
}

abbrev both_recorded : Pool
both_recorded = record {
  next_index = 2;
  stopped = false;
  tasks = idle ∷ idle ∷ [];
  results = 1 ∷ 0 ∷ [];
}

abbrev one_gone : Pool
one_gone = record {
  next_index = 2;
  stopped = false;
  tasks = gone ∷ idle ∷ [];
  results = 1 ∷ 0 ∷ [];
}

abbrev overtaken : Pool
overtaken = record {
  next_index = 2;
  stopped = false;
  tasks = gone ∷ gone ∷ [];
  results = 1 ∷ 0 ∷ [];
}

overtaken_reached : Reach 2 (start 2 2) overtaken
overtaken_reached =
    next
      (next
        (next
          (next
            (next (next here (takes (start 2 2) [] (idle ∷ []) refl refl (omega arith)))
              (takes first_running (running 0 ∷ []) [] refl refl (omega arith)))
            (finishes both_running (running 0 ∷ []) [] 1 refl))
          (finishes one_recorded [] (idle ∷ []) 0 refl))
        (returns_empty both_recorded [] (idle ∷ []) refl (omega arith)))
      (returns_empty one_gone (gone ∷ []) [] refl (omega arith))

-- One task.
abbrev alone : List Task → ℕ → List ℕ → Pool
alone tasks next_index results = record {
  next_index = next_index;
  stopped = false;
  tasks = tasks;
  results = results;
}

alone_reached : Reach 2 (start 1 2) (alone (gone ∷ []) 2 (0 ∷ 1 ∷ []))
alone_reached =
    next
      (next
        (next
          (next (next here (takes (start 1 2) [] [] refl refl (omega arith)))
            (finishes (alone (running 0 ∷ []) 1 []) [] [] 0 refl))
          (takes (alone (idle ∷ []) 1 (0 ∷ [])) [] [] refl refl (omega arith)))
        (finishes (alone (running 1 ∷ []) 2 (0 ∷ [])) [] [] 1 refl))
      (returns_empty (alone (idle ∷ []) 2 (0 ∷ 1 ∷ [])) [] [] refl (omega arith))

taking_reached : Reach 1 (start 1 1) taking
taking_reached = next here (takes (start 1 1) [] [] refl refl (omega arith))

drained_reached : Reach 1 (start 1 1) drained
drained_reached =
    next (next taking_reached (finishes taking [] [] 0 refl))
      (returns_empty recorded [] [] refl (omega arith))

abbrev shown : CaseResult
shown = record {
  case_id = "c";
  iteration = 0;
  success = true;
  latency = 3;
  failure_kind = "";
  failure_category = "";
  error_code = "";
  attempts = [];
  usage_complete = true;
  output = "";
  error = none;
  input_tokens = 0;
  output_tokens = 0;
  model_call_count = some 0;
  tool_call_count = 0;
  tool_path = [];
  assertions = [];
  input_cost = none;
  output_cost = none;
  total_cost = none;
  provider_error_code = "";
  in_call_retry_count = 0;
}

abbrev latencies : List ℕ
latencies = 5 ∷ 3 ∷ []

abbrev both : ℕ × ℕ → ℕ
both = λ pair. pair.0 + pair.1

abbrev coded : Dict Value
coded = ("agentstorm.provider.error_code", Json.text "slow") ∷ []

executed_every_example : count 0 drained.results ≡ taken 1 0
executed_every_example = executed_every 1 1 drained 0 (omega arith) drained_reached refl (refl, tt)

executed_once_example : count 0 taking.results + held 0 taking.tasks ≤ taken 1 0
executed_once_example = executed_once 1 1 taking 0 (omega arith) taking_reached

summary_any_interleaving_example :
    summarize "r" 0 1
      (map (λ i. record shown { latency = i }) overtaken.results)
      evaluation_config
      5
    ≡ record (summarize "r" 0 1
        (map (λ i. record shown { latency = i }) (alone (gone ∷ []) 2 (0 ∷ 1 ∷ [])).results)
        evaluation_config
        6) { duration = 5 }
summary_any_interleaving_example =
    summary_any_interleaving "r" 0 1 evaluation_config (λ i. record shown { latency = i }) 2 2 1
      overtaken (alone (gone ∷ []) 2 (0 ∷ 1 ∷ [])) 5 6 (omega arith) (omega arith) overtaken_reached
      alone_reached refl refl (refl, (refl, tt)) (refl, tt)
      (record { input = omega arith; output = omega arith; total = omega arith })

thresholds_iff_example :
    let s = summarize "r" 0 1 (shown ∷ []) evaluation_config 7 in
    (s.thresholds_passed ≡ true) ↔ (
      Holds evaluation_config.min_success_rate (λ l. IsAtLeast l s.success)
      × Holds evaluation_config.max_error_rate (λ l. IsAtMost l s.error)
      × Holds evaluation_config.max_p95_latency_ms (λ l. IsWithin l s.p95_latency_ns))
thresholds_iff_example = thresholds_iff "r" 0 1 (shown ∷ []) evaluation_config 7

p95_nearest_rank_example :
    (95 * length latencies ≤ 100 * count_le (p95 latencies) latencies)
    × ((v : ℕ) → v < p95 latencies → 100 * count_le v latencies < 95 * length latencies)
p95_nearest_rank_example = p95_nearest_rank latencies (omega arith)

selected_partition_example :
    sum_below 2 (λ s. sum_of (λ n. n) (selected 2 s (4 ∷ 5 ∷ 6 ∷ [])))
    ≡ sum_of (λ n. n) (4 ∷ 5 ∷ 6 ∷ [])
selected_partition_example = selected_partition 2 (λ n. n) (4 ∷ 5 ∷ 6 ∷ []) (omega arith)

costs_of_five :
    case_costs (some pricing_config) 2 3
    ≡ some (record {
      input_cost = some 3_000_000;
      output_cost = some 6_000_000;
      total_cost = some 9_000_000;
    })
unfolding case_costs round_half_even
costs_of_five = refl

case_costs_near_example :
    (2 * (2 * pricing_config.input_usd_per_million_tokens) ≤ 2 * (3_000_000 * million) + million)
    × (2 * (3_000_000 * million) ≤ 2 * (2 * pricing_config.input_usd_per_million_tokens) + million)
    × (2 * (3 * pricing_config.output_usd_per_million_tokens) ≤ 2 * (6_000_000 * million) + million)
    × (2 * (6_000_000 * million) ≤ 2 * (3 * pricing_config.output_usd_per_million_tokens) + million)
    × (9_000_000 ≡ 3_000_000 + 6_000_000)
case_costs_near_example =
    case_costs_near pricing_config 2 3 3_000_000 6_000_000 9_000_000 costs_of_five
