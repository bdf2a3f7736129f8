-- ===== src/Tests/Retries.antt =====
-- retry.py, faults.py and execution_errors.py at small inputs.
use agent_storm.Prelude.{
  ℕ, suc, ◌+◌, ◌-◌, ◌*◌, ◌≤◌, String, false, none, some, List, [], ◌∷◌, ◌++◌, ◌≡◌, ◌⊎◌, arith, All,
}
use agent_storm.Tests.Fixtures.{jitter_config, fault_scenario}
use agent_storm.Config.{FaultRuleConfig}
use agent_storm.Errors.{
  ExecutionError, Installed, Raised, classify_adapter_exception, execution_error,
}
use agent_storm.Errors.Safety.{IsForeign, classify_safety}
use agent_storm.Adapters.{AdapterRun, raised, raise_error}
use agent_storm.Retry.{retry_backoff_ms, capped_backoff}
use agent_storm.Retry.Backoff.{backoff_window}
use agent_storm.Faults.{select_fault_rule}
use agent_storm.Faults.Selection.{Fires, select_fault_rule_first}

abbrev no_digest : String → ℕ
no_digest = λ t. 0

abbrev provider_error : ExecutionError
provider_error = execution_error "provider" "http_4xx" "provider"

abbrev provider_call : AdapterRun
provider_call = record { tools = []; outcome = raised (raise_error provider_error) }

abbrev foreign : Raised
foreign = record { as_execution_error = none; is_instance = λ c. false; status_code = 0 }

abbrev bare : Installed
bare = record { agents = false; openai = false }

backoff_window_example :
    let r = retry_backoff_ms no_digest jitter_config (some 7) "c" 0 2 in
    let capped = capped_backoff jitter_config 2 in
    let den = suc jitter_config.jitter_ratio.over in
    let num = jitter_config.jitter_ratio.numerator in
    (r ≤ jitter_config.max_backoff_ms)
    × (2 * (r * den) ≤ 2 * (capped * (den + num)) + den)
    × ((r ≡ jitter_config.max_backoff_ms) ⊎ (2 * (capped * (den - num)) ≤ 2 * (r * den) + den))
backoff_window_example =
    backoff_window no_digest jitter_config (some 7) "c" 0 2 (λ t. omega arith) (omega arith)

select_fault_rule_first_example :
    let picked = select_fault_rule no_digest (some fault_scenario) (some 7) "c" 0 1 in
    let IsFired = Fires no_digest fault_scenario.digest 7 "c" 0 1 in
    ((rule : FaultRuleConfig)
      → picked ≡ some rule
      → (before after : List FaultRuleConfig) × (fault_scenario.rules ≡ before ++ rule ∷ after)
        × All (λ r. ¬ IsFired r) before
        × IsFired rule)
    × (picked ≡ none → All (λ r. ¬ IsFired r) fault_scenario.rules)
select_fault_rule_first_example = select_fault_rule_first no_digest fault_scenario 7 "c" 0 1

classify_safety_example :
    ((error : ExecutionError)
      → foreign.as_execution_error ≡ some error
      → classify_adapter_exception bare foreign ≡ error)
    × (foreign.as_execution_error ≡ none → IsForeign (classify_adapter_exception bare foreign))
classify_safety_example = classify_safety bare foreign
