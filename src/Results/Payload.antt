-- ===== src/Results/Payload.antt =====
-- results.py: `_case_payload` and `upload_shard`. Latencies are nanoseconds, sent as milliseconds.
pub mod Sensitive
use agent_storm.Prelude.{
  ℕ, zero, suc, String, Bool, true, false, not, ◌&&◌, Option, none, some, List, [], ◌∷◌, str_eq,
  if◌then◌else◌, is_empty, is_some, or_zero, concat, decimal, Dict, map,
}
use agent_storm.Prelude.Int.{pos}
use agent_storm.Models.{Value, Items, Fields, AssertionOutcome}
use agent_storm.Models.Json
use agent_storm.Models.Json.{texts, number}
use agent_storm.Config.Readers.{Python}
use agent_storm.Retry.{
  Decision, not_needed, not_retryable, retry_safe, retry_ambiguous, ambiguous_blocked,
  half_open_no_retry, attempt_limit, backoff_budget, time_budget,
}
use agent_storm.Runner.Records.{
  AttemptOutcome, succeeded, failed, rejected, AttemptResult, CaseResult,
}
use agent_storm.Runner.Summary.{RunSummary}
use agent_storm.Results.{ResultSinkConfig, Web, Request, Reply, Answer, put_to, run_path}

-- An entry that is there under a condition.
abbrev pub entry : Bool → String → Value → Fields → Fields
entry true key value fields = Json.field key value fields
entry false key value fields = fields

-- A text that is there where it is not empty.
abbrev pub text_entry : String → String → Fields → Fields
text_entry key s = entry (not (str_eq s "")) key (Json.text s)

abbrev pub optional_number : Option ℕ → Value
optional_number none = Json.null
optional_number (some n) = number n

abbrev pub milliseconds : ℕ → Value
milliseconds ns = Json.float (Json.finite (pos ns) 999_999)

-- The values of `outcome` and `retry_decision`.
abbrev outcome_text : AttemptOutcome → String
outcome_text succeeded = "succeeded"
outcome_text failed = "failed"
outcome_text rejected = "rejected"

abbrev decision_text : Decision → String
decision_text not_needed = "not_needed"
decision_text not_retryable = "not_retryable"
decision_text retry_safe = "retry_safe"
decision_text retry_ambiguous = "retry_ambiguous"
decision_text ambiguous_blocked = "ambiguous_blocked"
decision_text half_open_no_retry = "half_open_no_retry"
decision_text attempt_limit = "attempt_limit"
decision_text backoff_budget = "backoff_budget"
decision_text time_budget = "time_budget"

unfoldable pub attempt_payload : AttemptResult → Value
attempt_payload a = Json.object (
    Json.field "number" (number a.number) (
      Json.field "latency_ms" (milliseconds a.latency) (
        Json.field "outcome" (Json.text (outcome_text a.outcome)) (
          Json.field "ambiguous" (Json.boolean a.ambiguous) (
            Json.field "retry_decision" (Json.text (decision_text a.retry_decision)) (
              Json.field "backoff_ms" (number a.backoff_ms) (
                Json.field "input_tokens" (number (or_zero a.input_tokens)) (
                  Json.field "output_tokens" (number (or_zero a.output_tokens)) (
                    Json.field "usage_complete" (Json.boolean a.usage_complete) (
                      Json.field "model_call_count" (optional_number a.model_call_count) (
                        Json.field "tool_call_count" (number a.tool_call_count) (
                          text_entry "failure_category" a.failure_category (
                            text_entry "error_code" a.error_code (
                              text_entry "injected_rule" a.injected_rule (
                                text_entry "injected_fault" a.injected_fault (
                                  entry (not (is_empty a.circuit_events)) "circuit_events"
                                    (Json.array (texts a.circuit_events)) Json.end))))))))))))))))

unfoldable pub attempts_payload : List AttemptResult → Items
attempts_payload [] = Json.nil
attempts_payload (a ∷ attempts) = Json.cons (attempt_payload a) (attempts_payload attempts)

-- The message of an outcome, where it is wanted and there.
message_entry : Bool → Option String → Fields
message_entry true (some message) = Json.field "message" (Json.text message) Json.end
message_entry _ _ = Json.end

unfoldable pub outcome_payload : (include_sensitive : Bool) → AssertionOutcome → Value
unfolding message_entry
outcome_payload include_sensitive o = Json.object (
    Json.field "index" (number o.index) (
      Json.field "type" (Json.text o.type) (
        Json.field "passed" (Json.boolean o.passed) (
          Json.field "reason_code" (Json.text o.reason_code)
            (message_entry include_sensitive o.message)))))

unfoldable pub outcomes_payload : (include_sensitive : Bool) → List AssertionOutcome → Items
outcomes_payload include_sensitive [] = Json.nil
outcomes_payload include_sensitive (o ∷ outcomes) =
    Json.cons (outcome_payload include_sensitive o) (outcomes_payload include_sensitive outcomes)

error_entry : Option String → Fields
error_entry none = Json.end
error_entry (some e) = text_entry "error" e Json.end

-- The output and the error of a case, where they are wanted.
unfoldable pub sensitive_payload : (include_sensitive : Bool) → String → Option String → Fields
unfolding error_entry
sensitive_payload true output error = text_entry "output" output (error_entry error)
sensitive_payload false output error = Json.end

idempotency_key : Web → (run_id case_id : String) → ℕ → String
idempotency_key web run_id case_id iteration = concat "run/" (
    concat run_id (
      concat "/case/" (concat (web.quote_plus case_id) (concat "/iteration/" (decimal iteration)))))

-- `_case_payload`
unfoldable pub case_payload :
    Web → (include_sensitive : Bool) → (run_id : String) → CaseResult → Value
unfolding idempotency_key
case_payload web include_sensitive run_id r = Json.object (
    Json.field "idempotency_key" (Json.text (idempotency_key web run_id r.case_id r.iteration)) (
      Json.field "case_id" (Json.text r.case_id) (
        Json.field "iteration" (number r.iteration) (
          Json.field "success" (Json.boolean r.success) (
            Json.field "latency_ms" (milliseconds r.latency) (
              Json.field "input_tokens" (number r.input_tokens) (
                Json.field "output_tokens" (number r.output_tokens) (
                  Json.field "usage_complete" (Json.boolean r.usage_complete) (
                    Json.field "model_call_count" (optional_number r.model_call_count) (
                      Json.field "tool_call_count" (number r.tool_call_count) (
                        text_entry "failure_kind" r.failure_kind (
                          text_entry "failure_category" r.failure_category (
                            text_entry "error_code" r.error_code (
                              entry (not (is_empty r.attempts)) "attempts"
                                (Json.array (attempts_payload r.attempts))
                                (entry (not (is_empty r.tool_path)) "tool_path"
                                  (Json.array (texts r.tool_path))
                                  (entry (not (is_empty r.assertions)) "assertions"
                                    (Json.array (outcomes_payload include_sensitive r.assertions))
                                    (sensitive_payload include_sensitive r.output
                                      r.error)))))))))))))))))

unfoldable pub cases_payload :
    Web → (include_sensitive : Bool) → (run_id : String) → List CaseResult → Items
cases_payload web include_sensitive run_id [] = Json.nil
cases_payload web include_sensitive run_id (r ∷ results) =
    Json.cons (case_payload web include_sensitive run_id r)
      (cases_payload web include_sensitive run_id results)

-- The summary that is uploaded.
summary_payload : RunSummary → Value
summary_payload s = Json.object (
    Json.field "total" (number s.total) (
      Json.field "succeeded" (number s.succeeded) (
        Json.field "failed" (number s.failed) (
          Json.field "duration_ms" (milliseconds s.duration) (
            Json.field "input_tokens" (number s.input_tokens) (
              Json.field "output_tokens" (number s.output_tokens) (
                Json.field "usage_complete" (Json.boolean s.usage_complete) (
                  Json.field "model_call_count" (optional_number s.model_call_count)
                    (Json.field "tool_call_count" (number s.tool_call_count) Json.end)))))))))

unfoldable pub shard_payload :
    Web → (include_sensitive : Bool) (run_id : String) → List CaseResult → RunSummary → Fields
unfolding summary_payload
shard_payload web include_sensitive run_id results summary =
    Json.field "schema_version" (Json.text "v1alpha1") (
      Json.field "summary" (summary_payload summary) (
        Json.field "cases" (Json.array (cases_payload web include_sensitive run_id results))
          Json.end))

lease_header : Option String → Dict String
lease_header none = []
lease_header (some lease) = if str_eq lease "" then [] else ("X-AgentStorm-Queue-Lease", lease) ∷ []

-- `upload_shard`
unfoldable pub upload_shard :
    Python
    → Web
    → ResultSinkConfig
    → (Request → Reply)
    → (run_id : String) (shard_index : ℕ) → List CaseResult
    → RunSummary
    → (lease_token : Option String) → Answer Bool
unfolding lease_header
upload_shard py web config send run_id shard_index results summary lease_token =
    put_to py web config send
      (run_path py web config send run_id (concat "/shards/" (decimal shard_index)))
      (concat "run/" (concat run_id (concat "/shard/" (decimal shard_index))))
      (shard_payload web config.include_sensitive run_id results summary) (lease_header lease_token)
