-- ===== src/Config/Run/Sections.antt =====
-- config.py: what the accepted sections of a run configuration satisfy.
use agent_storm.Prelude.{
  not-true, ℕ, ◌≤◌, String, true, false, not, ◌&&◌, Option, none, some, List, [], ◌∷◌, ◌≡◌, leb,
  leb→le, str_eq, has_text, length, byte_count, arith, All, and_true,
}
use agent_storm.Prelude.Int.{ℤ, pos, negsuc}
use agent_storm.Prelude.Yields.{
  Yields, Yields-none, Yields-some, Yields-if, Yields-guard, Yields-bind,
}
use agent_storm.Models.{Value, Items, Fields}
use agent_storm.Models.Json
use agent_storm.Models.Json.{get}
use agent_storm.Config.{TargetConfig, WorkloadConfig, TelemetryConfig}
use agent_storm.Config.Readers.{get_or, at_least, is_falsy, Python}
use agent_storm.Chat.Validators.{
  validate_up_to, validate_max_output_tokens, validate_http_retry_attempts,
  validate_http_retry_max_wait_seconds,
}
use agent_storm.Chat.Validators.Bounds.{
  IsReserved, validate_up_to-bounds, validate_request_fields-absent, AreClean,
  validate_request_fields-AreClean,
}
use agent_storm.Config.Run.{
  int_of, positive_or, converted, optional_setting, request_fields_of, pricing_of, given,
  patterns_of, keys_of, items_in, mode_of, object_or_null, redaction_of, telemetry_of, target_of,
  workload_of,
}

-- What an optional value satisfies where it is there.
abbrev pub IfGiven {ℓ} : {A : Type ℓ} → (A → Type 0) → Option A → Type 0
IfGiven P none = Unit
IfGiven P (some a) = P a

abbrev Between : ℕ → ℕ → Type 0
Between maximum n = (1 ≤ n) × (n ≤ maximum)

-- The fields that a request may not take from the configuration.
abbrev pub target_keys : List String
target_keys = "temperature" ∷ "max_tokens" ∷ []

pub record IsTarget (py : Python) (target : TargetConfig) : Type 0 where
  pub output_bound : IfGiven (Between 131_072) target.max_output_tokens
  pub attempts_bound : IfGiven (Between 16) target.http_retry_attempts
  pub wait_bound : IfGiven (Between 300) target.http_retry_max_wait_seconds
  pub unreserved :
      (key : String) → IsReserved target_keys key → get key target.request_fields ≡ none
  pub clean : AreClean py target_keys target.request_fields

pub record IsWorkload (workload : WorkloadConfig) : Type 0 where
  pub concurrency : 1 ≤ workload.concurrency
  pub iterations : 1 ≤ workload.iterations
  pub timeout : 1 ≤ workload.timeout_seconds

pub record IsTelemetry (py : Python) (telemetry : TelemetryConfig) : Type 0 where
  pub mode : has_text telemetry.content_mode ("omit" ∷ "redacted" ∷ []) ≡ true
  pub few : length telemetry.patterns ≤ 20
  pub usable : All (λ s. (byte_count s ≤ 256) × (py.compiles s ≡ true)) telemetry.patterns
  pub named : All (λ s. str_eq s "" ≡ false) telemetry.metadata_keys

at_least-le : (m : ℕ) (n : ℤ) → Yields (λ k. m ≤ k) (at_least m n)
unfolding at_least
at_least-le m (pos n) =
    Yields-if _ (leb m n) _ _ (λ h. Yields-some _ n (leb→le m n h)) (Yields-none _)
at_least-le m (negsuc n) = Yields-none _

positive_or-le :
    (py : Python) (default : ℕ) (value : Option Value)
    → 1 ≤ default
    → Yields (λ n. 1 ≤ n) (positive_or py default value)
unfolding positive_or
positive_or-le py default none h = Yields-some _ default h
positive_or-le py default (some value) h =
    Yields-if _ (is_falsy (some value)) _ _ (λ f. Yields-some _ default h)
      (Yields-bind _ (int_of py value) _ λ n e. at_least-le 1 n)

pub workload_of-IsWorkload :
    (py : Python) (fields : Fields) → Yields IsWorkload (workload_of py fields)
unfolding workload_of
workload_of-IsWorkload py fields =
    Yields-bind _ (positive_or py 1 (get "concurrency" fields)) _ λ c e.
      Yields-bind _ (positive_or py 1 (get "iterations" fields)) _ λ i f.
        Yields-bind _ (positive_or py 900 (get "timeout_seconds" fields)) _ λ t g.
          Yields-some _ _ (record {
            concurrency = positive_or-le py 1 (get "concurrency" fields) (omega arith) c e;
            iterations = positive_or-le py 1 (get "iterations" fields) (omega arith) i f;
            timeout = positive_or-le py 900 (get "timeout_seconds" fields) (omega arith) t g;
          })

converted-IfGiven :
    (P : ℕ → Type 0) (convert : Value → Option ℕ)
    → ((value : Value) → Yields P (convert value))
    → (value : Option Value) → Yields (IfGiven P) (converted convert value)
unfolding converted
converted-IfGiven P convert p none = Yields-some _ none tt
converted-IfGiven P convert p (some value) =
    Yields-bind _ (convert value) _ λ n e. Yields-some (IfGiven P) (some n) (p value n e)

setting-bounds :
    (maximum : ℕ) (first second : String) (fields : Fields)
    → Yields
        (IfGiven (Between maximum))
        (optional_setting (validate_up_to maximum) first second fields)
unfolding optional_setting
setting-bounds maximum first second fields =
    converted-IfGiven (Between maximum) (validate_up_to maximum) (validate_up_to-bounds maximum)
      (given (get first fields) (get second fields))

pub target_of-IsTarget :
    (py : Python) (fields : Fields) → Yields (IsTarget py) (target_of py fields)
unfolding target_of request_fields_of validate_max_output_tokens validate_http_retry_attempts
    validate_http_retry_max_wait_seconds
target_of-IsTarget py fields = Yields-bind _ (pricing_of (get "pricing" fields)) _ λ pricing d.
    Yields-bind _ (optional_setting (validate_up_to 131_072) "maxTokens" "max_output_tokens" fields)
      _
      λ m e. Yields-bind _ (request_fields_of py fields) _ λ r f.
        Yields-bind _
          (optional_setting (validate_up_to 16) "httpRetryAttempts" "http_retry_attempts" fields) _
          λ a g.
            Yields-bind _
              (optional_setting (validate_up_to 300) "httpRetryMaxWaitSeconds"
                "http_retry_max_wait_seconds" fields)
              _
              λ w h. Yields-some _ _ (record {
                output_bound = setting-bounds 131_072 "maxTokens" "max_output_tokens" fields m e;
                attempts_bound =
                    setting-bounds 16 "httpRetryAttempts" "http_retry_attempts" fields a g;
                wait_bound =
                    setting-bounds 300 "httpRetryMaxWaitSeconds" "http_retry_max_wait_seconds"
                      fields w h;
                unreserved = λ key reserved.
                    validate_request_fields-absent py target_keys key
                      (given (get "requestFields" fields) (get "request_fields" fields)) reserved r
                      f;
                clean =
                    validate_request_fields-AreClean py target_keys
                      (given (get "requestFields" fields) (get "request_fields" fields)) r f;
              })

-- A pattern of at most 256 bytes that compiles.
abbrev IsPattern : Python → String → Type 0
IsPattern py s = (byte_count s ≤ 256) × (py.compiles s ≡ true)

patterns_of-All : (py : Python) (items : Items) → Yields (All (IsPattern py)) (patterns_of py items)
unfolding patterns_of
patterns_of-All py Json.nil = Yields-some _ [] tt
patterns_of-All py (Json.cons (Json.text s) items) =
    Yields-guard _ (leb (byte_count s) 256 && py.compiles s) _ λ usable.
      Yields-bind _ (patterns_of py items) _ λ rest e.
        let (short, compiled) = and_true (leb (byte_count s) 256) (py.compiles s) usable in
        Yields-some (All (IsPattern py)) (s ∷ rest)
          ((leb→le (byte_count s) 256 short, compiled), patterns_of-All py items rest e)
patterns_of-All py (Json.cons Json.null items) = Yields-none _
patterns_of-All py (Json.cons (Json.boolean b) items) = Yields-none _
patterns_of-All py (Json.cons (Json.int n) items) = Yields-none _
patterns_of-All py (Json.cons (Json.float x) items) = Yields-none _
patterns_of-All py (Json.cons (Json.array xs) items) = Yields-none _
patterns_of-All py (Json.cons (Json.object fs) items) = Yields-none _

keys_of-All : (items : Items) → Yields (All (λ s. str_eq s "" ≡ false)) (keys_of items)
unfolding keys_of
keys_of-All Json.nil = Yields-some _ [] tt
keys_of-All (Json.cons (Json.text s) items) = Yields-guard _ (not (str_eq s "")) _ λ named.
    Yields-bind _ (keys_of items) _ λ rest e.
      Yields-some (All (λ t. str_eq t "" ≡ false)) (s ∷ rest)
        (not-true (str_eq s "") named, keys_of-All items rest e)
keys_of-All (Json.cons Json.null items) = Yields-none _
keys_of-All (Json.cons (Json.boolean b) items) = Yields-none _
keys_of-All (Json.cons (Json.int n) items) = Yields-none _
keys_of-All (Json.cons (Json.float x) items) = Yields-none _
keys_of-All (Json.cons (Json.array xs) items) = Yields-none _
keys_of-All (Json.cons (Json.object fs) items) = Yields-none _

mode_of-known :
    (value : Value) → Yields (λ s. has_text s ("omit" ∷ "redacted" ∷ []) ≡ true) (mode_of value)
unfolding mode_of
mode_of-known (Json.text s) =
    Yields-guard _ (has_text s ("omit" ∷ "redacted" ∷ [])) _
      λ known. Yields-some (λ t. has_text t ("omit" ∷ "redacted" ∷ []) ≡ true) s known
mode_of-known Json.null = Yields-none _
mode_of-known (Json.boolean b) = Yields-none _
mode_of-known (Json.int n) = Yields-none _
mode_of-known (Json.float x) = Yields-none _
mode_of-known (Json.array xs) = Yields-none _
mode_of-known (Json.object fs) = Yields-none _

redaction_of-IsTelemetry :
    (py : Python) (mode : String) (fields : Fields)
    → has_text mode ("omit" ∷ "redacted" ∷ []) ≡ true
    → Yields (IsTelemetry py) (redaction_of py mode fields)
unfolding redaction_of
redaction_of-IsTelemetry py mode fields known =
    Yields-bind _ (items_in (get_or "patterns" (Json.array Json.nil) fields)) _ λ items d.
      Yields-bind _ (patterns_of py items) _ λ patterns e.
        Yields-guard _ (leb (length patterns) 20) _ λ few.
          Yields-bind _
            (items_in
              (get_or "metadataKeys" (get_or "metadata_keys" (Json.array Json.nil) fields) fields))
            _
            λ key_items f. Yields-bind _ (keys_of key_items) _ λ keys g. Yields-some _ _ (record {
              mode = known;
              few = leb→le (length patterns) 20 few;
              usable = patterns_of-All py items patterns e;
              named = keys_of-All key_items keys g;
            })

pub telemetry_of-IsTelemetry :
    (py : Python) (value : Value) → Yields (IsTelemetry py) (telemetry_of py value)
unfolding telemetry_of
telemetry_of-IsTelemetry py value = Yields-bind _ (object_or_null value) _ λ fields d.
    Yields-bind _
      (mode_of (get_or "contentMode" (get_or "content_mode" (Json.text "omit") fields) fields)) _
      λ mode e.
        Yields-bind _ (object_or_null (get_or "redaction" (Json.object Json.end) fields)) _
          λ redaction f. redaction_of-IsTelemetry py mode redaction (
            mode_of-known
              (get_or "contentMode" (get_or "content_mode" (Json.text "omit") fields) fields) mode
              e)
