-- ===== src/Tests/Loading.antt =====
-- config.py at small inputs: a dataset and a run.
use agent_storm.Prelude.{
  ℕ, ◌≤◌, String, true, false, none, some, [], ◌∷◌, ◌≡◌, refl, arith, All, map,
}
use agent_storm.Tests.Fixtures.{interpreter, address_of, plain_run, fake_target}
use agent_storm.Models.{Fields, contains, TestCase}
use agent_storm.Models.Json
use agent_storm.Models.Json.{get, number}
use agent_storm.Prelude.Int.{pos}
use agent_storm.Prelude.{
  is_empty, is_blank, decimal, is_stripped, byte_count, has_space, has_control, is_suffix,
  without_slashes,
}
use agent_storm.Config.{RunConfig}
use agent_storm.Config.Readers.{are_unique, only_keys, text_or, str_of}
use agent_storm.Config.Reliability.{parse_reliability}
use agent_storm.Config.Dataset.{
  load_dataset, load_lines, case_of, assertions_of, specs_of, spec_of, typed_spec, contains_spec,
  optional_string, metadata_of,
}
use agent_storm.Config.Dataset.Accepted.{IsCase, load_dataset-IsValid}
use agent_storm.Config.Run.{
  load_run_config, section_of, target_of, pricing_of, optional_setting, request_fields_of,
  workload_of, positive_or, evaluation_of, optional_float, optional_int, checked_run_of,
  telemetry_of, redaction_of, is_usable_target, is_usable_entrypoint,
}
use agent_storm.Config.Run.Valid.{IsRun, load_run_config-IsRun}
use agent_storm.Chat.Construction.{Plugin, import_fails, create_adapter}
use agent_storm.Chat.Construction.Accepted.{IsCreated, create_adapter-IsCreated}
use agent_storm.Chat.Validators.{
  validate_base_url, validate_pinned_model, validate_max_output_tokens, validate_request_fields,
}

abbrev unavailable : (module_name function_name : String) → Plugin
unavailable module_name function_name = import_fails

dumped_short : (n : ℕ) → n ≤ 131_072 → byte_count (interpreter.dumps (number n)) ≤ 1024
unfolding byte_count
dumped_short n h = omega arith

-- A blank line, and one with an input and an assertion.
abbrev read_case : TestCase
read_case = record {
  case_id = "case-2";
  prompt = "hi";
  expected_contains = none;
  assertions = contains "fake" ∷ [];
  metadata = [];
}

dataset_read : load_dataset interpreter (" " ∷ "{...}" ∷ []) ≡ some (read_case ∷ [])
unfolding load_dataset load_lines case_of assertions_of specs_of spec_of typed_spec contains_spec
    optional_string metadata_of only_keys text_or get is_blank decimal
dataset_read = refl

-- {"target": {"provider": "openai-compatible", "model": "m", "baseURL": "https://llm.test/v1",
-- "maxTokens": 16}}
abbrev run_fields : Fields
run_fields =
    Json.field "target"
      (Json.object (
        Json.field "provider" (Json.text "openai-compatible") (
          Json.field "model" (Json.text "m") (
            Json.field "baseURL" (Json.text "https://llm.test/v1")
              (Json.field "maxTokens" (Json.int (pos 16)) Json.end)))))
      Json.end

abbrev loaded_run : RunConfig
loaded_run = record plain_run {
  run_id = "local-run";
  source = record { namespace = "local"; name = "local-run" };
  target = record fake_target {
    provider = "openai-compatible";
    model = "m";
    base_url = "https://llm.test/v1";
    max_output_tokens = some 16;
  };
  workload = record { concurrency = 1; iterations = 1; timeout_seconds = 900 };
  evaluation = record { min_success_rate = none; max_error_rate = none; max_p95_latency_ms = none };
  reliability = none;
}

run_read : load_run_config interpreter address_of run_fields ≡ some loaded_run
unfolding load_run_config section_of target_of pricing_of optional_setting request_fields_of
    workload_of positive_or evaluation_of optional_float optional_int checked_run_of telemetry_of
    redaction_of is_usable_target is_usable_entrypoint validate_base_url validate_pinned_model
    validate_max_output_tokens validate_request_fields parse_reliability text_or str_of get
    is_stripped byte_count has_space has_control is_suffix without_slashes
run_read = refl

load_dataset-IsValid_example :
    (is_empty (read_case ∷ []) ≡ false)
    × (are_unique (map (λ t. t.case_id) (read_case ∷ [])) ≡ true)
    × All IsCase (read_case ∷ [])
load_dataset-IsValid_example =
    load_dataset-IsValid interpreter (" " ∷ "{...}" ∷ []) (read_case ∷ []) dataset_read

load_run_config-IsRun_example : IsRun interpreter address_of loaded_run
load_run_config-IsRun_example =
    load_run_config-IsRun interpreter address_of run_fields loaded_run run_read

create_adapter-IsCreated_example :
    IsCreated loaded_run.target
      (create_adapter interpreter address_of unavailable "key" loaded_run.target)
create_adapter-IsCreated_example =
    create_adapter-IsCreated interpreter address_of "key" unavailable run_fields loaded_run
      dumped_short run_read refl refl
