-- ===== src/Chat/Validators.antt =====
-- openai_compatible.py: the validators of the target section. `none` is the ValueError. `urlsplit` is
-- an argument, with the parts of the address that the code reads; `none` is its own ValueError.
pub mod Bounds
use agent_storm.Prelude.{
  ℕ, suc, ◌+◌, String, Bool, true, false, not, ◌&&◌, ◌||◌, Option, none, some, ◌>>=◌, guard, ltb,
  leb, str_eq, has_text, List, [], ◌∷◌, byte_count, char_count, has_space, is_stripped, has_control,
  is_identifier, is_suffix, without_slashes,
}
use agent_storm.Prelude.Int.{ℤ, pos, negsuc}
use agent_storm.Models.{Value, Items, Fields}
use agent_storm.Models.Json
use agent_storm.Config.Readers.{Python, strict_int, int_from}

pub record Url : Type 0 where
  pub scheme : String
  pub netloc : String
  pub hostname : String
  pub username : String
  pub password : String
  pub path : String
  pub query : String
  pub fragment : String

-- The tests on an address, before and after it is split.
pub is_proper_address : String → Bool
is_proper_address base_url =
    not (str_eq base_url "")
    && is_stripped base_url
    && leb (char_count base_url) 2048
    && not (has_control base_url)

pub is_root_address : Url → Bool
is_root_address url =
    has_text url.scheme ("http" ∷ "https" ∷ [])
    && not (str_eq url.hostname "")
    && (str_eq url.username "" && str_eq url.password "")
    && (str_eq url.query "" && str_eq url.fragment "")
    && not (is_suffix "/chat/completions" (without_slashes url.path))

-- `validate_base_url`
unfoldable pub validate_base_url : (urlsplit : String → Option Url) → String → Option Bool
unfolding is_proper_address is_root_address
validate_base_url urlsplit base_url = do
  proper ← guard (is_proper_address base_url)
  url ← urlsplit base_url
  guard (is_root_address url)

-- `validate_pinned_model`
unfoldable pub validate_pinned_model : String → Option Bool
validate_pinned_model model = guard (
    not (str_eq model "")
    && is_stripped model
    && leb (byte_count model) 256
    && not (has_space model))

-- `validate_max_output_tokens` and the like: an integer from 1 to a maximum.
unfoldable pub validate_up_to : ℕ → Value → Option ℕ
unfolding int_from
validate_up_to maximum value = do n ← int_from 1 (some value); few ← guard (leb n maximum); some n

unfoldable pub validate_max_output_tokens : Value → Option ℕ
unfolding validate_up_to
validate_max_output_tokens = validate_up_to 131_072

unfoldable pub validate_http_retry_attempts : Value → Option ℕ
unfolding validate_up_to
validate_http_retry_attempts = validate_up_to 16

unfoldable pub validate_http_retry_max_wait_seconds : Value → Option ℕ
unfolding validate_up_to
validate_http_retry_max_wait_seconds = validate_up_to 300

is_finite : Json.Float → Bool
is_finite (Json.finite n over) = true
is_finite _ = false

mutual
  unfolding is_finite

  -- `_json_value`: nested no deeper than 6, and no infinity or NaN.
  json_value : Value → (depth : ℕ) → Bool
  json_value (Json.float x) depth = leb depth 6 && is_finite x
  json_value (Json.array items) depth = leb depth 6 && json_items items (suc depth)
  json_value (Json.object fields) depth = leb depth 6 && json_fields fields (suc depth)
  json_value _ depth = leb depth 6

  json_items : Items → (depth : ℕ) → Bool
  json_items Json.nil depth = true
  json_items (Json.cons item items) depth = json_value item depth && json_items items depth

  json_fields : Fields → (depth : ℕ) → Bool
  json_fields Json.end depth = true
  json_fields (Json.field key value fields) depth =
      json_value value depth && json_fields fields depth

unfoldable pub field_count : Fields → ℕ
field_count Json.end = 0
field_count (Json.field key value fields) = suc (field_count fields)

abbrev reserved_request_fields : List String
reserved_request_fields = "model" ∷ "messages" ∷ "stream" ∷ "tools" ∷ "tool_choice" ∷ []

-- One entry of the request fields.
pub is_request_field : Python → List String → String → Value → Bool
unfolding json_value
is_request_field python rejected key value =
    is_identifier key
    && leb (byte_count key) 64
    && not (has_text key reserved_request_fields || has_text key rejected)
    && json_value value 0
    && leb (byte_count (python.dumps value)) 1024

unfoldable pub all_request_fields : Python → List String → Fields → Bool
unfolding is_request_field
all_request_fields python rejected Json.end = true
all_request_fields python rejected (Json.field key value fields) =
    is_request_field python rejected key value && all_request_fields python rejected fields

-- `validate_request_fields`
unfoldable pub validate_request_fields : Python → List String → Option Value → Option Fields
unfolding field_count all_request_fields
validate_request_fields python rejected none = some Json.end
validate_request_fields python rejected (some Json.null) = some Json.end
validate_request_fields python rejected (some (Json.object fields)) = do
  few ← guard (leb (field_count fields) 16)
  clean ← guard (all_request_fields python rejected fields)
  some fields
validate_request_fields python rejected (some _) = none
