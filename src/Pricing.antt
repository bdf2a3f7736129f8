-- ===== src/Pricing.antt =====
-- worker/src/agentstorm_worker/pricing.py. A `Decimal` cost is a whole number of units of
-- 10 ^ -12 USD (`_SCALE`). `quantize` raises where the result has more digits than the context's
-- precision, 64 in `token_cost_usd` and Python's default 28 elsewhere: `none` of the outer `Option`.
pub mod Rounding
pub mod Order
use agent_storm.Prelude.{
  ℕ, zero, suc, ◌/◌, ◌+◌, ◌*◌, ◌^◌, Option, none, some, List, [], ◌∷◌, Bool, true, false, ltb,
  if◌then◌else◌, round_half_even, any_of, is_some, not,
}
use agent_storm.Config.{PricingConfig}

abbrev pub million : ℕ
million = 1_000_000

-- `cost.quantize(_SCALE)` in a context of the given precision.
unfoldable pub quantized : ℕ → ℕ → Option ℕ
quantized precision units = if ltb units (10 ^ precision) then some units else none

-- The product `tokens * price / 10 ^ 6`, to the nearest unit.
unfoldable pub token_units : ℕ → ℕ → ℕ
token_units tokens price_per_million = round_half_even (tokens * price_per_million) million

-- `token_cost_usd`
unfoldable pub token_cost_usd : ℕ → ℕ → Option ℕ
unfolding quantized token_units
token_cost_usd tokens price_per_million = quantized 64 (token_units tokens price_per_million)

pub record Costs : Type 0 where
  pub input_cost : Option ℕ
  pub output_cost : Option ℕ
  pub total_cost : Option ℕ

abbrev pub no_costs : Costs
no_costs = record { input_cost = none; output_cost = none; total_cost = none }

total_costs : Option ℕ → Option ℕ → Option Costs
total_costs none output_cost = none
total_costs (some input_cost) none = none
total_costs (some input_cost) (some output_cost) = elim (quantized 28 (input_cost + output_cost)) [
  | none ↦ none
  | some total ↦ some (record {
    input_cost = some input_cost;
    output_cost = some output_cost;
    total_cost = some total;
  })
]

-- `case_costs`
unfoldable pub case_costs : Option PricingConfig → ℕ → ℕ → Option Costs
unfolding total_costs token_cost_usd
case_costs none input_tokens output_tokens = some no_costs
case_costs (some pricing) input_tokens output_tokens =
    total_costs (token_cost_usd input_tokens pricing.input_usd_per_million_tokens)
      (token_cost_usd output_tokens pricing.output_usd_per_million_tokens)

-- The decimal digits beyond the 28 of the default context; the fuel allows 128 digits in all.
excess : (fuel : ℕ) → ℕ → ℕ
excess zero units = 0
excess (suc fuel) units =
    let rest = excess fuel (units / 10) in if ltb units (10 ^ 28) then 0 else suc rest

-- A sum is rounded to 28 digits.
in_context : ℕ → ℕ
unfolding excess
in_context units =
    if ltb units (10 ^ 28)
    then units
    else (let unit = 10 ^ excess 100 units in round_half_even units unit * unit)

-- `sum`, from left to right.
sum_known : (total : ℕ) → List (Option ℕ) → ℕ
unfolding in_context
sum_known total [] = total
sum_known total (none ∷ values) = sum_known total values
sum_known total (some value ∷ values) = sum_known (in_context (total + value)) values

-- `sum_costs`
unfoldable pub sum_costs : List (Option ℕ) → Option ℕ
unfolding sum_known
sum_costs values = if any_of (λ v. not (is_some v)) values then none else some (sum_known 0 values)
