-- ===== src/Runner/Usage.antt =====
-- runner.py: what a case adds up over its attempts.
use agent_storm.Prelude.{
  ℕ, String, Bool, not, Option, none, some, List, [], ◌∷◌, str_eq, if◌then◌else◌, sum_of, all_of,
  is_some, or_zero,
}
use agent_storm.Config.{PricingConfig}
use agent_storm.Pricing.{Costs, no_costs, case_costs}
use agent_storm.Runner.Records.{AttemptResult}

pub record Usage : Type 0 where
  pub input_tokens : ℕ
  pub output_tokens : ℕ
  pub usage_complete : Bool

-- `_attempt_usage`
unfoldable pub attempt_usage : List AttemptResult → Usage
attempt_usage attempts = record {
  input_tokens = sum_of (λ a. or_zero a.input_tokens) attempts;
  output_tokens = sum_of (λ a. or_zero a.output_tokens) attempts;
  usage_complete = all_of (λ a. a.usage_complete) attempts;
}

-- `_attempt_calls`
unfoldable pub attempt_calls : List AttemptResult → Option ℕ × ℕ
attempt_calls attempts = (
  if all_of (λ a. is_some a.model_call_count) attempts
      then some (sum_of (λ a. or_zero a.model_call_count) attempts)
      else none,
  sum_of (λ a. a.tool_call_count) attempts,
)

-- `_costs_for_usage`; `none` is a raise of `case_costs`.
unfoldable pub costs_for_usage : Option PricingConfig → Usage → Option Costs
costs_for_usage pricing usage =
    if not usage.usage_complete
    then some no_costs
    else case_costs pricing usage.input_tokens usage.output_tokens

-- The loop of `_case_provider_fields`.
last_code : String → List AttemptResult → String
last_code code [] = code
last_code code (a ∷ attempts) =
    last_code (if str_eq a.provider_error_code "" then code else a.provider_error_code) attempts

-- `_case_provider_fields`
unfoldable pub case_provider_fields : List AttemptResult → String × ℕ
unfolding last_code
case_provider_fields attempts = (last_code "" attempts, sum_of (λ a. a.rate_limit_events) attempts)
