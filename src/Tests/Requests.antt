-- ===== src/Tests/Requests.antt =====
-- openai_compatible.py at small inputs.
use agent_storm.Prelude.{ℕ, zero, suc, ◌*◌, max, String, none, some, [], ◌∷◌, ◌≡◌}
use agent_storm.Models.{Fields}
use agent_storm.Models.Json
use agent_storm.Chat.Codes.{
  IsAllowed, Gives, IsCode, IsDiscreet, allowlisted_provider_code,
  allowlisted_provider_code-IsAllowed,
}
use agent_storm.Chat.Ledger.{empty_ledger, status_error}
use agent_storm.Chat.Ledger.Charges.{IsCharged, status_error-IsCharged}
use agent_storm.Chat.Post.{Client, Exchange, answered, io_error, post_with_retry}
use agent_storm.Chat.Post.Follows.{Follows}
use agent_storm.Chat.Post.Retries.{IsRetried, post_with_retry-IsRetried}
use agent_storm.Chat.Tools.{World, produced}
use agent_storm.Chat.Run.{run}
use agent_storm.Chat.Run.Turns.{IsDone, run-IsDone}

abbrev client : Client
client = record {
  max_model_calls = 2;
  max_http_attempts = 3;
  input_allowance = 8192;
  output_allowance = 8192;
  retry_initial = 1;
  retry_max = 8;
  api_key = "key";
}

-- Two busy answers, and then a connection that breaks off.
abbrev busy : ℕ → Exchange
busy zero = answered 429 (some 2) (record { size = 0; parsed = none })
busy (suc zero) = answered 429 none (record { size = 0; parsed = none })
busy _ = io_error

abbrev world : World
world = record {
  client = client;
  tools = "search" ∷ [];
  loads = λ text. none;
  handle = λ index call. produced "{}";
  exchange = λ messages. busy;
}

abbrev slow_down : Fields
slow_down =
    Json.field "error" (Json.object (Json.field "code" (Json.text "slow_down") Json.end)) Json.end

run-IsDone_example :
    IsDone world.client.max_model_calls
      (world.client.max_model_calls * max 1 world.client.max_http_attempts)
      (run world "be brief" "hello")
run-IsDone_example = run-IsDone world "be brief" "hello"

post_with_retry-IsRetried_example :
    IsRetried client 0 empty_ledger (post_with_retry client busy empty_ledger)
    × Follows busy 0 (post_with_retry client busy empty_ledger)
post_with_retry-IsRetried_example = post_with_retry-IsRetried client busy empty_ledger

status_error-IsCharged_example :
    let (error, after) = status_error 503 "slow" 10 20 empty_ledger in
    IsCharged 503 10 20 empty_ledger after error
status_error-IsCharged_example = status_error-IsCharged 503 "slow" 10 20 empty_ledger

allowlisted_provider_code-IsAllowed_example :
    IsAllowed (some slow_down) "key" (allowlisted_provider_code (some slow_down) "key")
    × ((given : String)
        → Gives (some slow_down) given
        → IsCode given
        → IsDiscreet "key" given
        → allowlisted_provider_code (some slow_down) "key" ≡ given)
allowlisted_provider_code-IsAllowed_example =
    allowlisted_provider_code-IsAllowed (some slow_down) "key"
