-- ===== src/Tests/Fixtures.antt =====
-- Configurations, errors and records that the examples share.
use agent_storm.Prelude.{String, true, false, Option, none, some, [], ◌∷◌}
use agent_storm.Config.{
  Ratio, CircuitBreakerConfig, RetryConfig, http_error, FaultRuleConfig, FaultScenarioConfig,
  PricingConfig, EvaluationConfig, TargetConfig, RunConfig,
}
use agent_storm.Prelude.Int.{pos}
use agent_storm.Models.{Fields}
use agent_storm.Models.Json
use agent_storm.Config.Readers.{Python}
use agent_storm.Chat.Validators.{Url}
use agent_storm.Results.{Web}
use agent_storm.Circuit.{CircuitBreaker, open_state, half_open}
use agent_storm.Runner.Attempt.{Setup}

abbrev pub breaker_config : CircuitBreakerConfig
breaker_config = record { failure_threshold = 2; open_duration_ms = 5 }

abbrev pub opened : CircuitBreaker
opened = record {
  state = open_state;
  consecutive_failures = 2;
  open_until = 9;
  probe_in_flight = false;
}

abbrev pub probing : CircuitBreaker
probing = record {
  state = half_open;
  consecutive_failures = 2;
  open_until = 9;
  probe_in_flight = true;
}

abbrev pub no_jitter : Ratio
no_jitter = record { numerator = 0; over = 9 }

abbrev pub half : Ratio
half = record { numerator = 1; over = 1 }

abbrev pub retry_config : RetryConfig
retry_config = record {
  max_attempts = 3;
  initial_backoff_ms = 4;
  max_backoff_ms = 10;
  max_cumulative_backoff_ms = 20;
  jitter_ratio = no_jitter;
  allow_ambiguous_retries = false;
}

abbrev pub jitter_config : RetryConfig
jitter_config = record retry_config { jitter_ratio = half }

abbrev pub fault_rule : FaultRuleConfig
fault_rule = record {
  name = "down";
  fault = http_error;
  probability = record { numerator = 1; over = 0 };
  case_ids = [];
  iterations = [];
  attempts = 1 ∷ [];
  delay_ms = none;
  status_code = some 503;
  tool_name = "";
}

abbrev pub fault_scenario : FaultScenarioConfig
fault_scenario = record {
  source_name = "faults";
  source_key = "scenario";
  digest = "d";
  rules = fault_rule ∷ [];
}

abbrev pub pricing_config : PricingConfig
pricing_config = record {
  input_text = "1.5";
  output_text = "2";
  input_usd_per_million_tokens = 1_500_000_000_000;
  output_usd_per_million_tokens = 2_000_000_000_000;
}

abbrev pub evaluation_config : EvaluationConfig
evaluation_config = record {
  min_success_rate = some (Json.finite (pos 1) 1);
  max_error_rate = none;
  max_p95_latency_ms = some (pos 7);
}

abbrev pub fake_target : TargetConfig
fake_target = record {
  provider = "fake";
  model = "";
  base_url = "";
  adapter_entrypoint = "";
  pricing = none;
  max_output_tokens = none;
  request_fields = Json.end;
  http_retry_attempts = none;
  http_retry_max_wait_seconds = none;
}

abbrev pub target_address : Url
target_address = record {
  scheme = "https";
  netloc = "llm.test";
  hostname = "llm.test";
  username = "";
  password = "";
  path = "/v1";
  query = "";
  fragment = "";
}

abbrev pub address_of : String → Option Url
address_of = λ s. some target_address

abbrev pub line : Fields
line = Json.field "input" (Json.text "hi") (
    Json.field "assertions"
      (Json.array (
        Json.cons
          (Json.object (
            Json.field "type" (Json.text "contains")
              (Json.field "value" (Json.text "fake") Json.end)))
          Json.nil))
      Json.end)

-- Every text that is read as JSON is the same line of a dataset.
abbrev pub interpreter : Python
interpreter = record {
  repr = λ v. "";
  int_of_text = λ s. some (pos 1);
  float_of_text = λ s. some (Json.finite (pos 30) 0);
  compiles = λ s. true;
  loads = λ s. some (Json.object line);
  dumps = λ v. "{}";
}

abbrev pub web : Web
web = record { urlsplit = address_of; quote = λ s. s; quote_plus = λ s. s; sha256_hex = λ s. s }

abbrev pub plain_run : RunConfig
plain_run = record {
  run_id = "r";
  source = record { namespace = "local"; name = "r" };
  dataset = record { name = "local-dataset"; key = "cases.jsonl" };
  target = fake_target;
  telemetry = record { content_mode = "omit"; patterns = []; metadata_keys = [] };
  workload = record { concurrency = 1; iterations = 1; timeout_seconds = 2 };
  evaluation = evaluation_config;
  reliability = some (record {
    seed = some 7;
    retry = retry_config;
    circuit_breaker = some breaker_config;
    scenario = none;
  });
}

abbrev pub plain_setup : Setup
plain_setup = record {
  digest_number = λ t. 0;
  python_str = λ v. "";
  installed = record { agents = false; openai = false };
  limited = false;
  scenario = none;
  seed = some 7;
}
