-- ===== src/Telemetry.antt =====
-- worker/src/agentstorm_worker/telemetry.py: what is left of content and of attributes before they are
-- exported. `pattern.sub("[REDACTED]", value)` and `json.dumps` are parameters.
pub mod Cleaning
pub mod Exported
pub mod Spans
use agent_storm.Prelude.{
  ℕ, String, Bool, true, false, not, ◌&&◌, Option, none, some, List, [], ◌∷◌, ◌>>=◌, ◌==◌, leb,
  str_eq, if◌then◌else◌, any_of, byte_count, byte_prefix, codes, plain_letters, strip, map,
}
use agent_storm.Prelude.Int.{ℤ}
use agent_storm.Models.{Value, Items, Fields}
use agent_storm.Models.Json
use agent_storm.Config.{TelemetryConfig}
use agent_storm.Worker.Settings.{Environment, boolean_text}

-- A Python object, as `_clean` tells them apart. A key that is no string is `none`; `other` is an
-- object of none of the types.
mutual
  pub data Object : Type 0 where
    nothing : Object
    boolean : Bool → Object
    int : ℤ → Object
    float : Json.Float → Object
    text : String → Object
    dict : Entries → Object
    sequence : Sequence → Object
    other : Object

  pub data Entries : Type 0 where
    end : Entries
    entry : Option String → Object → Entries → Entries

  pub data Sequence : Type 0 where
    nil : Sequence
    cons : Object → Sequence → Sequence

-- `normalized.endswith(suffix)`
codes_eq : List ℕ → List ℕ → Bool
codes_eq [] [] = true
codes_eq (x ∷ xs) (y ∷ ys) = x == y && codes_eq xs ys
codes_eq _ _ = false

ends_with : (suffix text : List ℕ) → Bool
unfolding codes_eq
ends_with suffix [] = codes_eq suffix []
ends_with suffix (x ∷ xs) =
    let rest = ends_with suffix xs in if codes_eq suffix (x ∷ xs) then true else rest

abbrev sensitive_key_suffixes : List String
sensitive_key_suffixes =
    "apikey" ∷ "auth" ∷ "authorization" ∷ "cookie" ∷ "credential" ∷ "credentials" ∷ "passphrase"
    ∷ "password" ∷ "privatekey" ∷ "secret" ∷ "sessionid" ∷ "token" ∷ []

-- `_sensitive_key`
unfoldable pub sensitive_key : String → Bool
unfolding ends_with
sensitive_key key =
    any_of (λ suffix. ends_with (codes suffix) (plain_letters key)) sensitive_key_suffixes

-- The attributes of a span.
pub data AttributeValue : Type 0 where
  text_attribute : String → AttributeValue
  other_attribute : Value → AttributeValue

module _ (sub : (pattern value : String) → String) (patterns : List String) where
  redacted_by : List String → String → String
  redacted_by [] value = value
  redacted_by (pattern ∷ rest) value = redacted_by rest (sub pattern value)

  cut : String → String
  cut value = if leb (byte_count value) 2048 then value else byte_prefix 2048 value

  -- `ContentSanitizer.string`
  unfoldable pub string : String → String
  unfolding redacted_by cut
  string value = cut (redacted_by patterns value)

  -- `ContentSanitizer.attribute`
  unfoldable pub attribute : AttributeValue → AttributeValue
  attribute (text_attribute value) = text_attribute (string value)
  attribute (other_attribute value) = other_attribute value

  -- An entry of the cleaned dictionary.
  kept_entry : String → Bool → Option Value → Fields → Fields
  kept_entry key true cleaned fields = fields
  kept_entry key false none fields = fields
  kept_entry key false (some value) fields = Json.field key value fields

  kept_item : Option Value → Items → Items
  kept_item none items = items
  kept_item (some value) items = Json.cons value items

  unfoldable mutual
    unfolding kept_entry kept_item

    -- `ContentSanitizer._clean`; `none` is `_UNSUPPORTED`.
    pub clean : Object → Option Value
    clean nothing = some Json.null
    clean (boolean b) = some (Json.boolean b)
    clean (int n) = some (Json.int n)
    clean (float x) = some (Json.float x)
    clean (text s) = some (Json.text (string s))
    clean (dict entries) = some (Json.object (clean_entries entries))
    clean (sequence items) = some (Json.array (clean_items items))
    clean other = none

    pub clean_entries : Entries → Fields
    clean_entries end = Json.end
    clean_entries (entry none value rest) = clean_entries rest
    clean_entries (entry (some key) value rest) =
        kept_entry key (sensitive_key key) (clean value) (clean_entries rest)

    pub clean_items : Sequence → Items
    clean_items nil = Json.nil
    clean_items (cons item rest) = kept_item (clean item) (clean_items rest)

  -- The rendering; `dumps` gives `none` where it raises.
  rendered : (dumps : Value → Option String) → Object → Option String
  rendered dumps value = do cleaned ← clean value; dumped ← dumps cleaned; some (string dumped)

  -- `ContentSanitizer.content`
  unfoldable pub content : (dumps : Value → Option String) → Object → Option String
  unfolding rendered
  content dumps (text s) = some (string s)
  content dumps value = rendered dumps value

-- A call of a telemetry client or of one of its spans.
pub data Call : Type 0 where
  start_span start_detached_span :
      (name : String) (attributes : List (String × AttributeValue)) → Call
  set_attribute : (name : String) (value : AttributeValue) → Call
  set_error : (error_type : String) → Call
  end_span shutdown : Call

-- A client: none, OpenTelemetry, or one that sanitises what it passes on.
pub data Client : Type 0 where
  noop open_telemetry : Client
  sanitizing : (patterns : List String) → Client → Client

-- `telemetry_with_policy`
unfoldable pub telemetry_with_policy : Client → TelemetryConfig → Client
telemetry_with_policy (sanitizing patterns client) config = sanitizing patterns client
telemetry_with_policy client config =
    if str_eq config.content_mode "redacted" then sanitizing config.patterns client else client

-- `_boolean_environment`
boolean_environment : Environment → (name : String) → Bool → Option Bool
unfolding boolean_text
boolean_environment environment name fallback = elim (environment name) [
  | none ↦ some fallback
  | some value ↦ if str_eq value "" then some fallback else boolean_text (strip value)
]

chosen : (installed : Bool) → TelemetryConfig → (enabled : Bool) → Option Client
chosen installed config false = if str_eq config.content_mode "redacted" then none else some noop
chosen installed config true =
    if installed then some (telemetry_with_policy open_telemetry config) else none

-- `telemetry_from_environment`; `none` is an exception, and `installed` whether OpenTelemetry can be
-- imported.
unfoldable pub telemetry_from_environment :
    Environment → (installed : Bool) → TelemetryConfig → Option Client
unfolding boolean_environment chosen
telemetry_from_environment environment installed config = do
  enabled ← boolean_environment environment "AGENTSTORM_OTEL_ENABLED" false
  chosen installed config enabled

module _ (sub : (pattern value : String) → String) where
  attributes : List String → List (String × AttributeValue) → List (String × AttributeValue)
  attributes patterns [] = []
  attributes patterns ((name, value) ∷ rest) =
      (name, attribute sub patterns value) ∷ attributes patterns rest

  -- `SanitizingTelemetry` and `_SanitizedSpan`: the call that is passed on.
  unfoldable pub sanitized : List String → Call → Call
  unfolding attributes
  sanitized patterns (start_span name values) = start_span name (attributes patterns values)
  sanitized patterns (start_detached_span name values) =
      start_detached_span name (attributes patterns values)
  sanitized patterns (set_attribute name value) = set_attribute name (attribute sub patterns value)
  sanitized patterns call = call

  -- The calls that reach OpenTelemetry.
  unfoldable pub exported : Client → List Call → List Call
  exported noop calls = []
  exported open_telemetry calls = calls
  exported (sanitizing patterns client) calls = exported client (map (sanitized patterns) calls)
