-- ===== src/Chat/Post.antt =====
-- openai_compatible.py: one HTTP request, and its repetitions after an HTTP 429.
pub mod Follows
pub mod Retries
use agent_storm.Prelude.{
  ℕ, zero, suc, ◌+◌, ◌≤◌, ◌<◌, String, Bool, true, false, not, ◌&&◌, ◌||◌, Option, none, some, List,
  [], ◌∷◌, ◌++◌, ◌≡◌, refl, ◌==◌, ltb, leb, str_eq, if◌then◌else◌, arith, length,
}
use agent_storm.Models.{Value, Fields}
use agent_storm.Models.Json
use agent_storm.Errors.{ExecutionError}
use agent_storm.Chat.Codes.{allowlisted_provider_code, retry_delay}
use agent_storm.Chat.Ledger.{Ledger, note_retryable, priced_unknown}

-- The bytes of a body, up to 2,000,001 of them, with what `json.loads` makes of them.
pub record Downloaded : Type 0 where
  pub size : ℕ
  pub parsed : Option Value

-- What the HTTP library and the network do with one request. `retry_after` is the parsed header.
pub data Exchange : Type 0 where
  answered : (status : ℕ) (retry_after : Option ℕ) (body : Downloaded) → Exchange
  -- an HTTPError, whose body may fail to arrive
  http_error : (status : ℕ) (retry_after : Option ℕ) (body : Option Downloaded) → Exchange
  timed_out : Exchange
  url_error : (is_timeout : Bool) → Exchange
  io_error : Exchange
  -- the task is cancelled during the request or the sleep before it
  interrupted : Exchange

-- What the client was built with.
pub record Client : Type 0 where
  pub max_model_calls : ℕ
  pub max_http_attempts : ℕ
  pub input_allowance : ℕ
  pub output_allowance : ℕ
  pub retry_initial : ℕ
  pub retry_max : ℕ
  pub api_key : String

pub data Posted : Type 0 where
  replied : (status : ℕ) (body : Option Fields) (retry_after : Option ℕ) → Posted
  broken : (error : ExecutionError) (ledger : Ledger) → Posted
  abandoned : Posted

-- The tests on the downloaded body.
unfoldable pub body_fields : Downloaded → Option Fields
body_fields body =
    if ltb 2000000 body.size || body.size == 0
    then none
    else elim body.parsed [ some (Json.object fields) ↦ some fields | _ ↦ none ]

unpriced : Client → (code failure_kind : String) → Ledger → Posted
unpriced client code failure_kind l =
    let (error, charged) =
      priced_unknown code failure_kind client.input_allowance client.output_allowance [] l in
    broken error charged

-- `_post`
unfoldable pub post : Client → Exchange → Ledger → Posted
unfolding unpriced body_fields
post client (answered status retry_after body) l = replied status (body_fields body) retry_after
post client (http_error status retry_after (some body)) l =
    replied status (body_fields body) retry_after
post client (http_error status retry_after none) l = unpriced client "connection_error" "provider" l
post client timed_out l = unpriced client "timeout" "timeout" l
post client (url_error true) l = unpriced client "timeout" "timeout" l
post client (url_error false) l = unpriced client "connection_error" "provider" l
post client io_error l = unpriced client "connection_error" "provider" l
post client interrupted l = abandoned

-- How `_post_with_retry` ends, after which requests and sleeps.
pub data Ending : Type 0 where
  returned : (status : ℕ) (body : Option Fields) → Ending
  failed : ExecutionError → Ending
  cancelled : Ending
  -- the fuel is used up
  stuck : Ending

pub record Retried : Type 0 where
  pub ending : Ending
  pub ledger : Ledger
  pub tries : ℕ
  pub delays : List ℕ

-- One more sleep before the rest.
slept : ℕ → Retried → Retried
slept delay rest = record rest { delays = delay ∷ rest.delays }

module _ (client : Client) where
  -- What follows a status: `again` is the rest of the loop.
  unfoldable pub after_reply :
      (tries status : ℕ) → Option Fields → Option ℕ → Ledger → (Ledger → Retried) → Retried
  unfolding slept
  after_reply tries status body retry_after l again =
      if not (status == 429)
      then record { ending = returned status body; ledger = l; tries = tries; delays = [] }
      else let code = allowlisted_provider_code body client.api_key in
        let noted = note_retryable code l in
        if leb client.max_http_attempts tries
        then record { ending = returned status body; ledger = noted; tries = tries; delays = [] }
        else slept (retry_delay tries retry_after client.retry_initial client.retry_max)
            (again noted)

  unfoldable pub after_post : (tries : ℕ) → Posted → Ledger → (Ledger → Retried) → Retried
  unfolding after_reply
  after_post tries (replied status body retry_after) l again =
      after_reply tries status body retry_after l again
  after_post tries abandoned l again = record {
    ending = cancelled;
    ledger = l;
    tries = tries;
    delays = [];
  }
  after_post tries (broken error charged) l again = record {
    ending = failed error;
    ledger = charged;
    tries = tries;
    delays = [];
  }

module _ (client : Client) (exchange : ℕ → Exchange) where
  -- The loop of `_post_with_retry`: `exchange n` is what happens to the n-th request.
  unfoldable pub post_tries : (fuel tries : ℕ) → Ledger → Retried
  unfolding post after_post
  post_tries zero tries l = record { ending = stuck; ledger = l; tries = tries; delays = [] }
  post_tries (suc fuel) tries l =
      after_post client (tries + 1) (post client (exchange tries) l) l (post_tries fuel (tries + 1))

  -- `_post_with_retry`
  unfoldable pub post_with_retry : Ledger → Retried
  unfolding post_tries
  post_with_retry l = post_tries (suc client.max_http_attempts) 0 l
