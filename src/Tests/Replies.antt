-- ===== src/Tests/Replies.antt =====
-- results.py at small inputs.
use agent_storm.Prelude.{ℕ, zero, suc, ◌*◌, ◌<◌, String, false, some, [], ◌∷◌, ◌≡◌, refl, map}
use agent_storm.Tests.Fixtures.{interpreter, web, fault_scenario, evaluation_config}
use agent_storm.Models.{Value, Fields}
use agent_storm.Models.Json
use agent_storm.Models.Json.{get, texts}
use agent_storm.Prelude.Int.{pos}
use agent_storm.Prelude.{is_blank, byte_count, is_sha256_digest}
use agent_storm.Config.Readers.{
  only_keys, int_from, strict_int, unit_ratio, nonempty_string, string_selector, integer_selector,
  integers,
}
use agent_storm.Config.Scenario.{
  parse_scenario, snapshot_fields, scenario_rules, rules_in, parse_rules, parse_fault_rule,
  rule_fields, rule_of, fault_fields,
}
use agent_storm.Results.{
  ResultSinkConfig, Request, Reply, http_error, json, acquire_permit, permit_request,
}
use agent_storm.Results.Payload.{shard_payload}
use agent_storm.Results.Payload.Sensitive.{stripped, shard_payload-stripped}
use agent_storm.Results.Registration.{document_payload}
use agent_storm.Results.Registration.RoundTrip.{document_payload-read}
use agent_storm.Runner.Summary.{summarize}
use agent_storm.Tests.Cases.{result}
use agent_storm.Scheduler.{
  PermitGrant, Round, obtained, wait_for_grant, wait_round, after_answer, crashed,
}
use agent_storm.Scheduler.Served.{answer_of, served, obtained-IsGrant}
use agent_storm.Config.Run.{int_of}
use agent_storm.Config.Readers.{str_of}
use agent_storm.Results.{replied, post_reply, post_request}
use agent_storm.Results.Replies.{HasObject}
use agent_storm.Results.Permits.{IsGrant}

abbrev sink : ResultSinkConfig
sink = record {
  base_url = "https://results.test";
  write_token = "token";
  include_sensitive = false;
  timeout_seconds = Json.finite (pos 30) 0;
}

-- The scheduler is busy for 250 ms.
abbrev busy_server : Request → Reply
busy_server = λ request.
    http_error 429 (json (Json.object (Json.field "retry_after_ms" (Json.int (pos 250)) Json.end)))

-- A server that is busy once.
abbrev lease_reply : Fields
lease_reply = Json.field "permit_id" (Json.text "p") (
    Json.field "lease_token" (Json.text "t")
      (Json.field "renew_after_ms" (Json.int (pos 1000)) Json.end))

abbrev server : ℕ → Request → Reply
server zero request = busy_server request
server (suc n) request = replied 200 (json (Json.object lease_reply))

-- Every 300 ms; the answer in it is not read.
abbrev reading : ℕ → Round
reading n = record {
  stopped = false;
  now = n * 300_000_000;
  answer = crashed;
  now_after = n * 300_000_000;
  stopped_after = false;
  woken = false;
}

abbrev grant : PermitGrant
grant = record { permit_id = "p"; lease_token = "t"; renew_after_ms = pos 1000 }

second_granted :
    wait_for_grant 900_000_000
      (served interpreter web sink "r" "case" "w" "fake" server reading)
      3
      0
    ≡ obtained grant
unfolding wait_for_grant wait_round after_answer served answer_of acquire_permit post_reply
    permit_request post_request get int_of str_of
second_granted = refl

abbrev digest : String
digest = "sha256:0123456789abcdef0123456789abcdef0123456789abcdef0123456789abcdef"

abbrev snapshot : Value
snapshot = Json.object (
    Json.field "sourceName" (Json.text "faults") (
      Json.field "sourceKey" (Json.text "scenario") (
        Json.field "digest" (Json.text digest) (
          Json.field "scenario"
            (Json.object (
              Json.field "apiVersion" (Json.text "agentstorm.io/v1alpha1") (
                Json.field "kind" (Json.text "FaultScenario") (
                  Json.field "rules"
                    (Json.array (
                      Json.cons
                        (Json.object (
                          Json.field "name" (Json.text "down") (
                            Json.field "fault" (Json.text "http_error") (
                              Json.field "probability" (Json.int (pos 1))
                                (Json.field "statusCode" (Json.int (pos 503)) Json.end)))))
                        Json.nil))
                    Json.end))))
            Json.end))))

snapshot_read :
    parse_scenario (some snapshot) ≡ some (some (record fault_scenario { digest = digest }))
unfolding parse_scenario snapshot_fields scenario_rules rules_in parse_rules parse_fault_rule
    rule_fields rule_of fault_fields only_keys int_from strict_int unit_ratio nonempty_string
    string_selector integer_selector integers get is_blank byte_count is_sha256_digest
snapshot_read = refl

shard_payload-stripped_example :
    shard_payload web false "r"
      (map stripped (result ∷ []))
      (summarize "r" 0 1 (result ∷ []) evaluation_config 7)
    ≡ shard_payload web false "r"
        (result ∷ [])
        (summarize "r" 0 1 (result ∷ []) evaluation_config 7)
shard_payload-stripped_example =
    shard_payload-stripped web "r" (result ∷ [])
      (summarize "r" 0 1 (result ∷ []) evaluation_config 7)

obtained-IsGrant_example :
    (n : ℕ) × ((reading n).stopped ≡ false)
    × ((reading n).now < 900_000_000)
    × ((fields : Fields) × HasObject
          (server n (permit_request interpreter web sink (server n) "r" "case" "w" "fake"))
          fields
        × IsGrant interpreter fields grant)
obtained-IsGrant_example =
    obtained-IsGrant interpreter web sink "r" "case" "w" "fake" server 900_000_000 reading 3 grant
      second_granted

document_payload-read_example :
    scenario_rules
      (some (Json.object (document_payload (record fault_scenario { digest = digest }))))
    ≡ some (record fault_scenario { digest = digest }).rules
document_payload-read_example =
    document_payload-read (some snapshot) (record fault_scenario { digest = digest }) snapshot_read
