-- ===== src/Pricing/Rounding.antt =====
-- pricing.py: the error of a rounded cost, and what a sum of costs covers.
use agent_storm.Prelude.{ℕ, ◌+◌, ◌*◌, ◌≤◌, Option, none, some, ◌≡◌, arith, round_half_even_near}
use agent_storm.Config.{PricingConfig}
use agent_storm.Pricing.{million, quantized, token_units, token_cost_usd, total_costs, case_costs}

token_units_near :
    (tokens price : ℕ)
    → (2 * (tokens * price) ≤ 2 * (token_units tokens price * million) + million)
      × (2 * (token_units tokens price * million) ≤ 2 * (tokens * price) + million)
unfolding token_units
token_units_near tokens price = round_half_even_near (tokens * price) million (omega arith)

quantized-some : (precision units got : ℕ) → quantized precision units ≡ some got → got ≡ units
unfolding quantized
quantized-some precision units got h = ground arith

token_cost_near :
    (tokens price cost : ℕ)
    → token_cost_usd tokens price ≡ some cost
    → (2 * (tokens * price) ≤ 2 * (cost * million) + million)
      × (2 * (cost * million) ≤ 2 * (tokens * price) + million)
unfolding token_cost_usd
token_cost_near tokens price cost h =
    rw (quantized-some 64 (token_units tokens price) cost h) (token_units_near tokens price)

total_costs-some :
    (a b : Option ℕ) (i o t : ℕ)
    → total_costs a b
      ≡ some (record { input_cost = some i; output_cost = some o; total_cost = some t })
    → (a ≡ some i) × (b ≡ some o) × (quantized 28 (i + o) ≡ some t)
unfolding total_costs
total_costs-some none b i o t h = cc
total_costs-some (some x) none i o t h = cc
total_costs-some (some x) (some y) i o t h = ground arith

-- The input and output costs of a priced case are each within half a unit of
-- tokens * price / 10 ^ 6, and the total is their sum exactly.
pub case_costs_near :
    (pricing : PricingConfig) (input_tokens output_tokens i o t : ℕ)
    → case_costs (some pricing) input_tokens output_tokens
      ≡ some (record { input_cost = some i; output_cost = some o; total_cost = some t })
    → (2 * (input_tokens * pricing.input_usd_per_million_tokens) ≤ 2 * (i * million) + million)
      × (2 * (i * million) ≤ 2 * (input_tokens * pricing.input_usd_per_million_tokens) + million)
      × (2 * (output_tokens * pricing.output_usd_per_million_tokens) ≤ 2 * (o * million) + million)
      × (2 * (o * million) ≤ 2 * (output_tokens * pricing.output_usd_per_million_tokens) + million)
      × (t ≡ i + o)
unfolding case_costs
case_costs_near pricing input_tokens output_tokens i o t h =
    let input_price = pricing.input_usd_per_million_tokens in
    let output_price = pricing.output_usd_per_million_tokens in
    let (a, b, c) =
      total_costs-some (token_cost_usd input_tokens input_price)
        (token_cost_usd output_tokens output_price) i o t h in
    let (up, down) = token_cost_near input_tokens input_price i a in
    let (up', down') = token_cost_near output_tokens output_price o b in
    (up, down, up', down', quantized-some 28 (i + o) t c)
