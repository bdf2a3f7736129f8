-- ===== src/Results.antt =====
-- worker/src/agentstorm_worker/results.py: the client of the Result API. The network is an argument:
-- a request gets a reply. `quote`, `quote_plus` and SHA-256 are fields of `Web`.
pub mod Payload
pub mod Registration
pub mod Replies
pub mod Permits
use agent_storm.Prelude.{
  ℕ, ◌*◌, max, String, Bool, true, false, not, ◌&&◌, ◌||◌, Option, none, some, List, [], ◌∷◌, ◌==◌,
  ◌>>=◌, guard, str_eq, if◌then◌else◌, has_text, is_blank, char_count, concat, decimal, Dict,
  update, without_slashes,
}
use agent_storm.Prelude.Int.{ℤ, pos, negsuc}
use agent_storm.Models.{Value, Fields}
use agent_storm.Models.Json
use agent_storm.Models.Json.{get}
use agent_storm.Config.Readers.{get_or, Python, str_of}
use agent_storm.Config.Run.{int_of}
use agent_storm.Chat.Validators.{Url}
use agent_storm.Scheduler.{PermitGrant}

pub record QueueClaim : Type 0 where
  pub shard_index : ℤ
  pub lease_token : String
  pub renew_after_ms : ℤ

pub record ResultSinkConfig : Type 0 where
  pub base_url : String
  pub write_token : String
  pub include_sensitive : Bool
  pub timeout_seconds : Json.Float

pub record Web : Type 0 where
  pub urlsplit : String → Option Url
  pub quote : String → String
  pub quote_plus : String → String
  pub sha256_hex : String → String

-- `timeout_seconds <= 0`
is_not_positive : Json.Float → Bool
is_not_positive (Json.finite (pos n) over) = n == 0
is_not_positive (Json.finite (negsuc n) over) = true
is_not_positive (Json.infinite positive) = not positive
is_not_positive Json.nan = false

-- `__init__`; `none` is a ValueError.
unfoldable pub result_client : Web → ResultSinkConfig → Option ResultSinkConfig
unfolding is_not_positive
result_client web config = do
  url ← web.urlsplit config.base_url
  remote ← guard (has_text url.scheme ("http" ∷ "https" ∷ []) && not (str_eq url.netloc ""))
  bare ← guard (
      str_eq url.username ""
      && str_eq url.password ""
      && str_eq url.query ""
      && str_eq url.fragment "")
  signed ← guard (not (is_blank config.write_token))
  timed ← guard (not (is_not_positive config.timeout_seconds))
  some (record config { base_url = without_slashes config.base_url })

pub data Method : Type 0 where
  put post : Method

pub record Request : Type 0 where
  pub method : Method
  pub url : String
  pub headers : Dict String
  pub body : Fields

-- `response.read()` or `exc.read()`, as `json.loads` takes it.
pub data Body : Type 0 where
  empty not_json : Body
  json : Value → Body

-- What `urlopen` does: a response, an HTTPError, or another of its errors.
pub data Reply : Type 0 where
  replied : (status : ℕ) → Body → Reply
  http_error : (code : ℕ) → Body → Reply
  unavailable : Reply

-- `raised` is an exception that is no ResultSinkError. A SchedulerBusy is one.
pub data Answer (A : Type 0) : Type 0 where
  answered : A → Answer A
  sink_error : Answer A
  busy : (retry_after_ms : ℕ) → Answer A
  raised : Answer A

abbrev pub and_then : {A B : Type 0} → Answer A → (A → Answer B) → Answer B
and_then (answered a) f = f a
and_then sink_error f = sink_error
and_then (busy ms) f = busy ms
and_then raised f = raised

-- The parsed body; an empty one is read as `{}`.
abbrev pub loaded : Body → Option Value
loaded empty = some (Json.object Json.end)
loaded not_json = none
loaded (json value) = some value

-- `max(1, retry_after_ms)`
at_least_one : ℤ → ℕ
at_least_one (pos n) = max 1 n
at_least_one (negsuc n) = 1

wait_of : Option ℤ → Answer (Option Fields)
unfolding at_least_one
wait_of none = busy 1000
wait_of (some ms) = busy (at_least_one ms)

-- `int(...)` of the advised wait: an infinity raises an OverflowError, which is not caught.
advised : Python → Value → Answer (Option Fields)
unfolding wait_of
advised py (Json.float (Json.infinite positive)) = raised
advised py value = wait_of (int_of py value)

-- A 429: where the body is JSON but no object, `.get` raises an AttributeError.
too_many : Python → Option Value → Answer (Option Fields)
unfolding advised
too_many py none = busy 1000
too_many py (some (Json.object fields)) =
    advised py (get_or "retry_after_ms" (Json.int (pos 1000)) fields)
too_many py (some _) = raised

object_reply : Option Value → Answer (Option Fields)
object_reply none = raised
object_reply (some (Json.object fields)) = answered (some fields)
object_reply (some _) = sink_error

-- `_post`, of the reply.
unfoldable pub post_reply : Python → Reply → Answer (Option Fields)
unfolding too_many object_reply
post_reply py (replied status body) =
    if status == 204 then answered none else object_reply (loaded body)
post_reply py (http_error code body) = if code == 429 then too_many py (loaded body) else sink_error
post_reply py unavailable = sink_error

-- `_put`, of the reply.
unfoldable pub put_reply : Reply → Answer Bool
put_reply (replied status body) = answered true
put_reply (http_error code body) = sink_error
put_reply unavailable = sink_error

or_raised : {A : Type 0} → Option A → Answer A
or_raised none = raised
or_raised (some a) = answered a

required : {A : Type 0} → (Value → Option A) → String → Fields → Answer A
unfolding or_raised
required convert key fields = or_raised (get key fields >>= convert)

-- `str(payload[key])` and `int(payload[key])`
text_field : Python → String → Fields → Answer String
unfolding required
text_field py = required (λ v. some (str_of py v))

int_field : Python → String → Fields → Answer ℤ
unfolding required
int_field py = required (int_of py)

module _ (py : Python) (web : Web) (config : ResultSinkConfig) (send : Request → Reply) where
  -- The request of `_post`.
  unfoldable pub post_request : (path : String) → Fields → Request
  post_request path body = record {
    method = post;
    url = concat config.base_url path;
    headers =
        ("Authorization", concat "Bearer " config.write_token)
        ∷ ("Content-Type", "application/json")
        ∷ [];
    body = body;
  }

  unfoldable pub post_to : (path : String) → Fields → Answer (Option Fields)
  post_to path body = post_reply py (send (post_request path body))

  -- The request of `_put`.
  unfoldable pub put_request :
      (path idempotency_key : String) → Fields → (extra : Dict String) → Request
  put_request path idempotency_key body extra = record {
    method = put;
    url = concat config.base_url path;
    headers =
        update
          (("Authorization", concat "Bearer " config.write_token)
            ∷ ("Content-Type", "application/json")
            ∷ ("Idempotency-Key", idempotency_key)
            ∷ [])
          extra;
    body = body;
  }

  unfoldable pub put_to : (path idempotency_key : String) → Fields → Dict String → Answer Bool
  put_to path idempotency_key body extra =
      put_reply (send (put_request path idempotency_key body extra))

  abbrev pub run_path : (run_id suffix : String) → String
  run_path run_id suffix = concat "/v1/runs/" (concat (web.quote run_id) suffix)

  claim_of : Option Fields → Answer (Option QueueClaim)
  unfolding text_field int_field
  claim_of none = answered none
  claim_of (some payload) = and_then (int_field py "shard_index" payload) λ shard.
      and_then (text_field py "lease_token" payload) λ lease.
        and_then (int_field py "renew_after_ms" payload) λ renew.
          answered
            (some (record { shard_index = shard; lease_token = lease; renew_after_ms = renew }))

  -- `claim_shard`
  unfoldable pub claim_shard : (run_id worker_id : String) → Answer (Option QueueClaim)
  unfolding claim_of
  claim_shard run_id worker_id =
      and_then
        (post_to (run_path run_id "/queue/claims")
          (Json.field "worker_id" (Json.text worker_id) Json.end))
        claim_of

  -- The reply of a renewal: an empty one is an error.
  renewed : Option Fields → Answer ℤ
  unfolding int_field
  renewed none = sink_error
  renewed (some payload) = int_field py "renew_after_ms" payload

  lease_body : String → Fields
  lease_body lease_token = Json.field "lease_token" (Json.text lease_token) Json.end

  -- `renew_shard`
  unfoldable pub renew_shard : (run_id : String) (shard_index : ℕ) (lease_token : String) → Answer ℤ
  unfolding renewed lease_body
  renew_shard run_id shard_index lease_token =
      and_then
        (post_to (run_path run_id (concat "/queue/shards/" (concat (decimal shard_index) "/renew")))
          (lease_body lease_token))
        renewed

  granted : Option Fields → Answer PermitGrant
  unfolding text_field int_field
  granted none = sink_error
  granted (some payload) = and_then (text_field py "permit_id" payload) λ permit.
      and_then (text_field py "lease_token" payload) λ lease.
        and_then (int_field py "renew_after_ms" payload) λ renew.
          answered (record { permit_id = permit; lease_token = lease; renew_after_ms = renew })

  -- The id under which a permit is asked for: 64 characters, or the digest of others.
  unfoldable pub permit_request_id : String → String
  permit_request_id request_id =
      if char_count request_id == 64 then request_id else web.sha256_hex request_id

  -- The request of `acquire_permit`.
  unfoldable pub permit_request : (run_id request_id worker_id provider : String) → Request
  permit_request run_id request_id worker_id provider = post_request (run_path run_id "/permits") (
      Json.field "request_id" (Json.text (permit_request_id request_id)) (
        Json.field "worker_id" (Json.text worker_id)
          (Json.field "provider" (Json.text provider) Json.end)))

  -- `acquire_permit`
  unfoldable pub acquire_permit :
      (run_id request_id worker_id provider : String) → Answer PermitGrant
  unfolding granted
  acquire_permit run_id request_id worker_id provider =
      and_then (post_reply py (send (permit_request run_id request_id worker_id provider))) granted

  -- `renew_permit`
  unfoldable pub renew_permit : (run_id : String) → PermitGrant → Answer ℤ
  unfolding renewed lease_body
  renew_permit run_id grant =
      and_then
        (post_to (run_path run_id (concat "/permits/" (concat grant.permit_id "/renew")))
          (lease_body grant.lease_token))
        renewed

  -- `release_permit`
  unfoldable pub release_permit : (run_id : String) → PermitGrant → Answer Bool
  unfolding lease_body
  release_permit run_id grant =
      and_then
        (post_to (run_path run_id (concat "/permits/" (concat grant.permit_id "/release")))
          (lease_body grant.lease_token))
        (λ payload. answered true)

  -- `mark_terminal`; another status is a ValueError.
  unfoldable pub mark_terminal : (run_id status reason_code : String) → Answer Bool
  mark_terminal run_id status reason_code =
      if has_text status ("cancelled" ∷ "harness_failed" ∷ [])
      then put_to (run_path run_id "/terminal")
          (concat "run/" (concat run_id (concat "/terminal/" status)))
          (Json.field "status" (Json.text status)
            (Json.field "reason_code" (Json.text reason_code) Json.end))
          []
      else raised
