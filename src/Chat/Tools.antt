-- ===== src/Chat/Tools.antt =====
-- openai_compatible.py: `_execute_tools`, and the state that `run` and it share.
pub mod Tally
use agent_storm.Prelude.{
  ℕ, ◌+◌, String, Bool, true, false, Option, none, some, List, [], ◌∷◌, ◌++◌, if◌then◌else◌,
  has_text,
}
use agent_storm.Models.{AdapterResponse, Value, Items, Fields}
use agent_storm.Models.Json
use agent_storm.Errors.{ExecutionError}
use agent_storm.Chat.Ledger.{Ledger, ledger_response, ledger_error}
use agent_storm.Chat.Completion.{ToolCall, parse_tool_call}
use agent_storm.Chat.Post.{Client, Exchange}

-- The variables of `run`, the names of the tools that were started, and the number of requests.
pub record Session : Type 0 where
  pub ledger : Ledger
  pub messages : List Value
  pub tool_count : ℕ
  pub started : List String
  pub requests : ℕ

-- What a tool's handler and the encoding of its result do.
pub data Handled : Type 0 where
  produced : (content : String) → Handled
  execution_failed : ExecutionError → Handled
  type_failed other_failed : Handled
  -- the task is cancelled while the tool runs
  interrupted : Handled

-- The surroundings of `run`: the registered tools, `json.loads`, what the n-th tool does on a call,
-- and what happens to the n-th request with these messages.
pub record World : Type 0 where
  pub client : Client
  pub tools : List String
  pub loads : String → Option Value
  pub handle : ℕ → ToolCall → Handled
  pub exchange : List Value → ℕ → Exchange

-- `_error("model_behavior", ambiguous=True, …)`
unfoldable pub model_behavior : Ledger → ExecutionError
model_behavior l = ledger_error "provider" "model_behavior" "provider" true false l.usage_known [] l

-- The ExecutionError of a tool that raised.
tool_failed : Ledger → ExecutionError
tool_failed l = record {
  category = "tool";
  code = "tool_error";
  failure_kind = "tool";
  ambiguous = false;
  safe_to_retry = false;
  response = some (ledger_response "" l);
  injected_rule = "";
  injected_fault = "";
  usage_complete = l.usage_known;
  circuit_events = [];
}

tool_message : (call_id content : String) → Value
tool_message call_id content = Json.object (
    Json.field "role" (Json.text "tool") (
      Json.field "tool_call_id" (Json.text call_id)
        (Json.field "content" (Json.text content) Json.end)))

-- Tool calls went well, or one of them raised, or was cancelled.
pub data Stepped : Type 0 where
  went : (session : Session) → Stepped
  broke : (error : ExecutionError) (session : Session) → Stepped
  dropped : (session : Session) → Stepped

unfoldable pub after_handler : ToolCall → Handled → Session → Stepped
unfolding model_behavior tool_failed tool_message
after_handler call (produced content) s =
    went (record s { messages = s.messages ++ tool_message call.call_id content ∷ [] })
after_handler call (execution_failed error) s = broke error s
after_handler call type_failed s = broke (model_behavior s.ledger) s
after_handler call other_failed s = broke (tool_failed s.ledger) s
after_handler call interrupted s = dropped s

unfoldable pub start_tool : World → ToolCall → Session → Stepped
unfolding after_handler
start_tool world call s =
    if has_text call.name world.tools
    then after_handler call (world.handle s.tool_count call)
        (record s { started = s.started ++ call.name ∷ [] })
    else broke (model_behavior s.ledger) s

unfoldable pub parsed_step : World → Option ToolCall → Session → Stepped
unfolding start_tool
parsed_step world none s = broke (model_behavior s.ledger) s
parsed_step world (some call) s = start_tool world call s

unfoldable pub tool_step : World → Value → Session → Stepped
unfolding parsed_step
tool_step world value s = parsed_step world (parse_tool_call world.loads value) s

-- The rest of `_execute_tools` after one call, with the count of those that were executed.
unfoldable pub after_tool : Stepped → (Session → Stepped) → Stepped
after_tool (went s) again = again (record s { tool_count = s.tool_count + 1 })
after_tool (broke error s) again = broke error s
after_tool (dropped s) again = dropped s

-- `_execute_tools`
unfoldable pub execute_tools : World → Items → Session → Stepped
unfolding tool_step after_tool
execute_tools world Json.nil s = went s
execute_tools world (Json.cons value calls) s =
    after_tool (tool_step world value s) (execute_tools world calls)
