-- ===== src/Results/Payload/Sensitive.antt =====
-- results.py: what an upload tells of outputs, errors and messages.
use agent_storm.Prelude.{String, false, none, List, [], ◌∷◌, ◌≡◌, refl, ap, ap₂, map, is_empty}
use agent_storm.Models.{AssertionOutcome}
use agent_storm.Models.Json
use agent_storm.Runner.Records.{CaseResult}
use agent_storm.Runner.Summary.{RunSummary}
use agent_storm.Results.{Web}
use agent_storm.Results.Payload.{
  message_entry, outcome_payload, outcomes_payload, sensitive_payload, case_payload, cases_payload,
  shard_payload,
}

abbrev without_message : AssertionOutcome → AssertionOutcome
without_message o = record o { message = none }

-- A result without its output, its error text and the messages of its assertions.
abbrev pub stripped : CaseResult → CaseResult
stripped r = record r { output = ""; error = none; assertions = map without_message r.assertions }

outcomes_stripped :
    (outcomes : List AssertionOutcome)
    → outcomes_payload false (map without_message outcomes) ≡ outcomes_payload false outcomes
unfolding outcomes_payload outcome_payload message_entry
outcomes_stripped [] = refl
outcomes_stripped (o ∷ outcomes) =
    ap (Json.cons (outcome_payload false o)) (outcomes_stripped outcomes)

is_empty-map :
    (outcomes : List AssertionOutcome) → is_empty (map without_message outcomes) ≡ is_empty outcomes
is_empty-map [] = refl
is_empty-map (o ∷ outcomes) = refl

case_stripped :
    (web : Web) (run_id : String) (r : CaseResult)
    → case_payload web false run_id (stripped r) ≡ case_payload web false run_id r
unfolding case_payload sensitive_payload
case_stripped web run_id r = rw (is_empty-map r.assertions, outcomes_stripped r.assertions) refl

cases_stripped :
    (web : Web) (run_id : String) (results : List CaseResult)
    → cases_payload web false run_id (map stripped results) ≡ cases_payload web false run_id results
unfolding cases_payload
cases_stripped web run_id [] = refl
cases_stripped web run_id (r ∷ results) =
    ap₂ Json.cons (case_stripped web run_id r) (cases_stripped web run_id results)

-- Without the opt-in to sensitive results, the payload of a shard is the same whatever the outputs,
-- the error texts and the messages of the assertions were.
pub shard_payload-stripped :
    (web : Web) (run_id : String) (results : List CaseResult) (summary : RunSummary)
    → shard_payload web false run_id (map stripped results) summary
      ≡ shard_payload web false run_id results summary
unfolding shard_payload
shard_payload-stripped web run_id results summary = rw (cases_stripped web run_id results) refl
