-- ===== src/Tests/Reported.antt =====
-- telemetry.py at small inputs.
use agent_storm.Prelude.{String, Option, some, List, [], ◌∷◌}
use agent_storm.Prelude.Int.{pos}
use agent_storm.Prelude.Yields.{Yields}
use agent_storm.Config.{TelemetryConfig}
use agent_storm.Telemetry.{
  Object, text, int, dict, entry, end, Call, start_span, set_attribute, end_span, text_attribute,
  Client, open_telemetry, sanitizing,
}

abbrev replaced : String → String → String
replaced = λ pattern value. "[REDACTED]"

abbrev redacting : TelemetryConfig
redacting = record { content_mode = "redacted"; patterns = "key" ∷ []; metadata_keys = [] }

abbrev enabled : String → Option String
enabled = λ name. some "true"

abbrev client : Client
client = sanitizing ("key" ∷ []) open_telemetry

abbrev calls : List Call
calls =
    start_span "run" (("prompt", text_attribute "my key") ∷ [])
    ∷ set_attribute "output" (text_attribute "key")
    ∷ end_span
    ∷ []

-- {"api_key": "k", "n": 3}
abbrev metadata : Object
metadata = dict (entry (some "api_key") (text "k") (entry (some "n") (int (pos 3)) end))
