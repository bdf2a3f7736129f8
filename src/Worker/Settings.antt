-- ===== src/Worker/Settings.antt =====
-- __main__.py and results.py: what the environment variables decide.
use agent_storm.Prelude.{
  String, Bool, true, false, not, Option, none, some, [], ◌∷◌, ◌>>=◌, str_eq, if◌then◌else◌,
  has_text, strip, is_true, is_false,
}
use agent_storm.Prelude.Int.{ℤ}
use agent_storm.Config.Readers.{Python}
use agent_storm.Results.{Web, ResultSinkConfig, result_client}

-- `os.getenv(name)`
abbrev pub Environment : Type 0
Environment = String → Option String

-- `os.getenv(name, default)`
abbrev pub getenv : Environment → (name default : String) → String
getenv environment name default = elim (environment name) [ none ↦ default | some s ↦ s ]

unfoldable pub boolean_text : String → Option Bool
boolean_text s = if is_true s then some true else if is_false s then some false else none

-- `_environment_boolean`; `none` is a ValueError.
unfoldable pub environment_boolean : Environment → (name : String) (default : Bool) → Option Bool
unfolding boolean_text
environment_boolean environment name default = elim (environment name) [
  | none ↦ some default
  | some raw ↦ boolean_text (strip raw)
]

-- `int(os.getenv(name, default))`
unfoldable pub integer_or : Python → Environment → (name default : String) → Option ℤ
integer_or py environment name default = py.int_of_text (getenv environment name default)

-- `provider_spend_allowed`
unfoldable pub provider_spend_allowed : Environment → (provider : String) → Bool
provider_spend_allowed environment provider =
    if not (has_text provider ("openai-compatible" ∷ "openai-agents" ∷ []))
    then true
    else str_eq (getenv environment "AGENTSTORM_ALLOW_PROVIDER_SPEND" "") "1"

-- `ResultClient.from_environment`: an exception, no client, or a client.
unfoldable pub client_from_environment :
    Python → Web → Environment → Option (Option ResultSinkConfig)
client_from_environment py web environment =
    let base_url = strip (getenv environment "AGENTSTORM_RESULT_API_URL" "") in
    if str_eq base_url "" then some none else (do
      include_sensitive ←
          environment_boolean environment "AGENTSTORM_INCLUDE_SENSITIVE_RESULTS" false
      timeout ← py.float_of_text (getenv environment "AGENTSTORM_RESULT_TIMEOUT_SECONDS" "30")
      client ← result_client web (record {
        base_url = base_url;
        write_token = getenv environment "AGENTSTORM_RESULT_WRITE_TOKEN" "";
        include_sensitive = include_sensitive;
        timeout_seconds = timeout;
      })
      some (some client))
