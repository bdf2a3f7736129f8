-- ===== src/Chat/Run.antt =====
-- openai_compatible.py: `run`, the loop over model calls and tool calls.
-- The client's `api_key` is already stripped.
pub mod Turns
use agent_storm.Prelude.{
  is_blank, ℕ, zero, suc, ◌+◌, String, Bool, true, false, not, ◌&&◌, ◌||◌, Option, none, some, List,
  [], ◌∷◌, ◌++◌, ◌==◌, ltb, leb, str_eq, if◌then◌else◌, has_text, insert,
}
use agent_storm.Models.{AdapterResponse, Value, Items, Fields}
use agent_storm.Models.Json
use agent_storm.Errors.{ExecutionError}
use agent_storm.Adapters.{AdapterRun, Outcome, answered, raised, raise_error}
use agent_storm.Chat.Codes.{allowlisted_token, allowlisted_provider_code}
use agent_storm.Chat.Ledger.{
  Ledger, empty_ledger, add_usage, ledger_response, ledger_error, status_error,
}
use agent_storm.Chat.Completion.{
  AssistantMessage, Completion, parse_completion, ToolCall, parse_tool_call, message_text,
}
use agent_storm.Chat.Tools.{
  Session, World, Stepped, went, broke, dropped, model_behavior, execute_tools,
}
use agent_storm.Chat.Post.{
  Client, Exchange, Ending, returned, failed, cancelled, stuck, Retried, post_with_retry,
}

pub data RunEnding : Type 0 where
  responded : AdapterResponse → RunEnding
  stopped : ExecutionError → RunEnding
  -- the CancelledError passes, of a request or of a tool
  withdrawn tool_withdrawn : RunEnding
  -- the fuel is used up
  endless : RunEnding

pub record Ran : Type 0 where
  pub ending : RunEnding
  pub session : Session

or_null : Option Value → Value
or_null none = Json.null
or_null (some value) = value

call_field : Option Items → Fields
call_field none = Json.end
call_field (some items) = Json.field "tool_calls" (Json.array items) Json.end

pub assistant_message : AssistantMessage → Value
unfolding or_null call_field
assistant_message message = Json.object (
    Json.field "role" (Json.text "assistant")
      (Json.field "content" (or_null message.content) (call_field message.tool_calls)))

-- `_error("max_turns_exceeded", …)`
pub max_turns : Ledger → ExecutionError
max_turns l =
    ledger_error "evaluation" "max_turns_exceeded" "assertion" false false l.usage_known [] l

-- `content or ""`
pub text_or_empty : Option String → String
text_or_empty none = ""
text_or_empty (some text) = text

-- The end of a turn without tool calls.
unfoldable pub respond : (content : Option String) → (finish : String) → Session → RunEnding
unfolding is_blank text_or_empty
respond content finish s =
    let shown = text_or_empty content in
    let reason = ("agentstorm.provider.finish_reason", Json.text finish) ∷ [] in
    let l = s.ledger in
    if str_eq finish "length" && is_blank shown
    then stopped
        (ledger_error "provider" "output_truncated" "provider" false false l.usage_known reason l)
    else elim content [
      | none ↦ stopped (model_behavior l)
      | some text ↦
          let response = record (ledger_response text l) { tool_call_count = some s.tool_count } in
          responded (
            if str_eq finish "" then response else record response {
              metadata =
                  insert "agentstorm.provider.finish_reason" (Json.text finish) response.metadata;
            })
    ]

pub items_of : Option Items → Items
items_of none = Json.nil
items_of (some items) = items

unfoldable pub after_tools : Stepped → (Session → Ran) → Ran
after_tools (went s) again = again s
after_tools (broke error s) again = record { ending = stopped error; session = s }
after_tools (dropped s) again = record { ending = tool_withdrawn; session = s }

-- What follows a completion: its tool calls, if it has some, and the next turn; or its answer.
unfoldable pub after_completion :
    World → AssistantMessage → (finish : String) → Items → Session → (Session → Ran) → Ran
unfolding execute_tools after_tools respond max_turns assistant_message
after_completion world message finish Json.nil s again = record {
  ending = respond (message_text message.content) finish s;
  session = s;
}
after_completion world message finish (Json.cons call calls) s again =
    if leb world.client.max_model_calls s.ledger.model_calls
    then record { ending = stopped (max_turns s.ledger); session = s }
    else after_tools
        (execute_tools world (Json.cons call calls)
          (record s { messages = s.messages ++ assistant_message message ∷ [] }))
        again

-- What follows a 200: its ledger already counts the call.
unfoldable pub after_body : World → Option Completion → Session → (Session → Ran) → Ran
unfolding after_completion items_of
after_body world none s again =
    let l = record s.ledger { usage_known = false } in
    record {
      ending =
          stopped (ledger_error "provider" "malformed_response" "provider" true false false [] l);
      session = record s { ledger = l };
    }
after_body world (some completion) s again =
    after_completion world completion.message
      (allowlisted_token (some (Json.text completion.finish_reason)))
      (items_of completion.message.tool_calls)
      (record s { ledger = add_usage completion.used s.ledger }) again

-- What follows `_post_with_retry`.
unfoldable pub after_ending : World → Ending → Session → (Session → Ran) → Ran
unfolding after_body
after_ending world (returned status body) s again =
    let client = world.client in
    let code = allowlisted_provider_code body client.api_key in
    let (error, charged) =
      status_error status code client.input_allowance client.output_allowance s.ledger in
    if not (status == 200)
    then record { ending = stopped error; session = record s { ledger = charged } }
    else let l = record s.ledger { model_calls = s.ledger.model_calls + 1 } in
      after_body world (parse_completion body) (record s { ledger = l }) again
after_ending world (failed error) s again = record { ending = stopped error; session = s }
after_ending world cancelled s again =
    let l = record s.ledger { usage_known = false } in
    record { ending = withdrawn; session = record s { ledger = l } }
after_ending world stuck s again = record { ending = endless; session = s }

-- The session after a request and its repetitions.
unfoldable pub posted_session : Retried → Session → Session
posted_session retried s = record s {
  ledger = retried.ledger;
  requests = s.requests + retried.tries;
}

-- The loop of `run`.
unfoldable pub turns : (fuel : ℕ) → World → Session → Ran
unfolding after_ending posted_session
turns zero world s = record { ending = endless; session = s }
turns (suc fuel) world s =
    let again = turns fuel world in
    let retried =
      post_with_retry world.client (λ n. world.exchange s.messages (s.requests + n)) s.ledger in
    if leb world.client.max_model_calls s.ledger.model_calls
    then record { ending = stopped (max_turns s.ledger); session = s }
    else after_ending world retried.ending (posted_session retried s) again

text_message : (role content : String) → Value
text_message role content =
    Json.object
      (Json.field "role" (Json.text role) (Json.field "content" (Json.text content) Json.end))

-- The session before the loop.
unfoldable pub opening : (instructions prompt : String) → Session
unfolding text_message
opening instructions prompt =
    let system = if str_eq instructions "" then [] else text_message "system" instructions ∷ [] in
    record {
      ledger = empty_ledger;
      messages = system ++ text_message "user" prompt ∷ [];
      tool_count = 0;
      started = [];
      requests = 0;
    }

-- `run`
unfoldable pub run : World → (instructions prompt : String) → Ran
unfolding turns opening
run world instructions prompt =
    turns (suc world.client.max_model_calls) world (opening instructions prompt)
