-- ===== src/Chat/Construction.antt =====
-- openai_compatible.py: the constructor of the client, and `create_adapter` of adapters/__init__.py.
-- The waits are finite numbers. `none` is a ValueError.
pub mod Sent
pub mod Accepted
use agent_storm.Prelude.{
  ℕ, suc, ◌*◌, ◌/◌, String, Bool, true, false, not, ◌&&◌, Option, none, some, List, [], ◌∷◌, ◌>>=◌,
  guard, leb, str_eq, if◌then◌else◌, all_of, concat, without_slashes, split_colon,
}
use agent_storm.Prelude.Int.{ℤ, pos, negsuc}
use agent_storm.Models.{Value, Fields}
use agent_storm.Models.Json
use agent_storm.Models.Json.{number}
use agent_storm.Config.{TargetConfig}
use agent_storm.Config.Readers.{Python, at_least, int_from, are_unique}
use agent_storm.Chat.Completion.{output_allowance}
use agent_storm.Chat.Post.{Client}
use agent_storm.Chat.Validators.{
  Url, validate_base_url, validate_pinned_model, validate_up_to, validate_max_output_tokens,
  validate_http_retry_attempts, validate_http_retry_max_wait_seconds, validate_request_fields,
}

-- What `__init__` is called with; a number of seconds is a fraction over one more than its second part.
pub record Arguments : Type 0 where
  pub model : String
  pub base_url : String
  pub tools : List String
  pub max_model_calls : ℤ
  pub request_timeout_seconds : ℤ × ℕ
  pub request_fields : Option Value
  pub unknown_input_tokens : Value
  pub max_http_attempts : Value
  pub retry_initial_backoff_seconds : ℤ × ℕ
  pub retry_max_backoff_seconds : ℤ × ℕ

-- The two waits, in nanoseconds: 0 <= initial <= maximum <= 300 seconds.
pub waits : ℤ × ℕ → ℤ × ℕ → Option (ℕ × ℕ)
waits (pos i, a) (pos m, b) = do
  ordered ← guard (leb (i * suc b) (m * suc a) && leb m (300 * suc b))
  some (i * 1_000_000_000 / suc a, m * 1_000_000_000 / suc b)
waits _ _ = none

is_positive : ℤ × ℕ → Bool
is_positive (pos n, over) = leb 1 n
is_positive (negsuc n, over) = false

-- `__init__`, with the stripped key of `run`.
unfoldable pub new_client :
    Python → (urlsplit : String → Option Url) → (api_key : String) → Arguments → Option Client
unfolding waits is_positive
new_client py urlsplit api_key a = do
  pinned ← validate_pinned_model a.model
  addressed ← validate_base_url urlsplit a.base_url
  calls ← at_least 1 a.max_model_calls
  few ← guard (leb calls 32)
  timed ← guard (is_positive a.request_timeout_seconds)
  input ← int_from 1 (some a.unknown_input_tokens)
  tries ← validate_up_to 16 a.max_http_attempts
  (initial, maximum) ← waits a.retry_initial_backoff_seconds a.retry_max_backoff_seconds
  extra ← validate_request_fields py [] a.request_fields
  named ← guard (are_unique a.tools && all_of (λ name. not (str_eq name "")) a.tools)
  some (record {
    max_model_calls = calls;
    max_http_attempts = tries;
    input_allowance = input;
    output_allowance = output_allowance extra;
    retry_initial = initial;
    retry_max = maximum;
    api_key = api_key;
  })

-- `chat_completions_url`
unfoldable pub chat_completions_url : String → String
chat_completions_url base_url = concat (without_slashes base_url) "/chat/completions"

-- What the module and the factory of an entrypoint do.
pub data Plugin : Type 0 where
  import_fails not_callable factory_fails invalid_adapter valid_adapter : Plugin

-- `agents` is the OpenAIAgentsAdapter with these arguments, which is not constructed here.
pub data Adapter : Type 0 where
  fake plugin_adapter : Adapter
  chat : Client → Adapter
  agents : (model base_url : String) → Adapter

pub data Creation : Type 0 where
  created : Adapter → Creation
  -- an AdapterPluginError; a ValueError
  plugin_error value_error : Creation

-- `_create_plugin_adapter`, of the entrypoint's parts.
plugin_creation : Plugin → Creation
plugin_creation valid_adapter = created plugin_adapter
plugin_creation _ = plugin_error

entrypoint_creation :
    (plugin : (module_name function_name : String) → Plugin) → Option (String × String) → Creation
unfolding plugin_creation
entrypoint_creation plugin none = plugin_error
entrypoint_creation plugin (some (module_name, function_name)) =
    plugin_creation (plugin module_name function_name)

-- `fields[key] = value`
unfoldable pub set_field : String → Value → Fields → Fields
set_field key value Json.end = Json.field key value Json.end
set_field key value (Json.field k v fields) =
    let rest = set_field key value fields in
    if str_eq k key then Json.field k value fields else Json.field k v rest

unfoldable pub with_max_tokens : Option ℕ → Fields → Option Fields
with_max_tokens none fields = some fields
with_max_tokens (some n) fields = do
  tokens ← validate_max_output_tokens (number n)
  some (set_field "max_tokens" (number tokens) fields)

-- `http_retry_adapter_kwargs`, with the constructor's defaults.
unfoldable pub tries_of : Option ℕ → Option Value
tries_of none = some (number 3)
tries_of (some n) = do tries ← validate_http_retry_attempts (number n); some (number tries)

unfoldable pub longest_wait : Option ℕ → Option (ℤ × ℕ)
longest_wait none = some (pos 8, 0)
longest_wait (some n) = do
  seconds ← validate_http_retry_max_wait_seconds (number n)
  some (pos seconds, 0)

-- The client of a target.
unfoldable pub target_client :
    Python → (urlsplit : String → Option Url) → (api_key : String) → TargetConfig → Option Client
target_client py urlsplit api_key target = do
  cleaned ←
      validate_request_fields py ("temperature" ∷ "max_tokens" ∷ [])
        (some (Json.object target.request_fields))
  fields ← with_max_tokens target.max_output_tokens cleaned
  tries ← tries_of target.http_retry_attempts
  wait ← longest_wait target.http_retry_max_wait_seconds
  new_client py urlsplit api_key (record {
    model = target.model;
    base_url = target.base_url;
    tools = [];
    max_model_calls = pos 8;
    request_timeout_seconds = (pos 120, 0);
    request_fields = some (Json.object fields);
    unknown_input_tokens = number 8192;
    max_http_attempts = tries;
    retry_initial_backoff_seconds = (pos 1, 1);
    retry_max_backoff_seconds = wait;
  })

chat_creation : Option Client → Creation
chat_creation none = value_error
chat_creation (some client) = created (chat client)

-- `create_adapter`, as `execute` calls it.
unfoldable pub create_adapter :
    Python
    → (urlsplit : String → Option Url) (plugin : (module_name function_name : String) → Plugin)
      (api_key : String)
    → TargetConfig
    → Creation
unfolding entrypoint_creation chat_creation
create_adapter py urlsplit plugin api_key target =
    if not (str_eq target.adapter_entrypoint "")
    then entrypoint_creation plugin (split_colon target.adapter_entrypoint)
    else if str_eq target.provider "fake"
    then created fake
    else if str_eq target.provider "openai-compatible"
    then chat_creation (target_client py urlsplit api_key target)
    else if str_eq target.provider "openai-agents"
    then created (agents target.model target.base_url)
    else value_error
