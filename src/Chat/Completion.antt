-- ===== src/Chat/Completion.antt =====
-- openai_compatible.py: what the client reads out of a chat completion.
-- A body is the parsed JSON object, or none; `none` as a result is the ValueError.
use agent_storm.Prelude.{
  ℕ, suc, ◌/◌, ◌%◌, ◌^◌, String, ◌&&◌, Option, none, some, concat, ◌==◌, ltb, leb, str_eq,
  if◌then◌else◌, ◌>>=◌,
}
use agent_storm.Prelude.Int.{pos}
use agent_storm.Models.{Value, Items, Fields}
use agent_storm.Models.Json
use agent_storm.Models.Json.{get}

-- `_token_count`
unfoldable pub token_count : Option Value → Option ℕ
token_count (some (Json.int (pos n))) = some n
token_count (some (Json.float (Json.finite (pos n) over))) =
    if n % suc over == 0 && leb (n / suc over) (2 ^ 53) then some (n / suc over) else none
token_count _ = none

-- `d.get(key, d.get(fallback))`
get_or : (key fallback : String) → Fields → Option Value
get_or key fallback fields = elim (get key fields) [ some v ↦ some v | none ↦ get fallback fields ]

-- `_usage`
unfoldable pub usage : Option Value → Option (ℕ × ℕ)
unfolding token_count get_or
usage (some (Json.object fields)) = do
  input ← token_count (get_or "prompt_tokens" "input_tokens" fields)
  output ← token_count (get_or "completion_tokens" "output_tokens" fields)
  some (input, output)
usage _ = none

-- The assistant message that is appended: `tool_calls` only when the answer has it.
pub record AssistantMessage : Type 0 where
  pub content : Option Value
  pub tool_calls : Option Items

pub record Completion : Type 0 where
  pub message : AssistantMessage
  pub used : Option (ℕ × ℕ)
  pub finish_reason : String

-- `finish_reason or ""` when it is a text or null.
finish_text : Option Value → Option String
finish_text none = some ""
finish_text (some Json.null) = some ""
finish_text (some (Json.text reason)) = some reason
finish_text _ = none

call_items : Option Value → Option (Option Items)
call_items none = some none
call_items (some Json.null) = some none
call_items (some (Json.array calls)) = some (some calls)
call_items _ = none

first_choice : Option Value → Option Fields
first_choice (some (Json.array (Json.cons (Json.object choice) rest))) = some choice
first_choice _ = none

fields_of : Option Value → Option Fields
fields_of (some (Json.object fields)) = some fields
fields_of _ = none

-- `_parse_completion`
unfoldable pub parse_completion : Option Fields → Option Completion
unfolding usage finish_text call_items first_choice fields_of
parse_completion body = do
  fields ← body
  choice ← first_choice (get "choices" fields)
  message ← fields_of (get "message" choice)
  reason ← finish_text (get "finish_reason" choice)
  calls ← call_items (get "tool_calls" message)
  some (record {
    message = record { content = get "content" message; tool_calls = calls };
    used = usage (get "usage" fields);
    finish_reason = reason;
  })

nonempty_text : Option Value → Option String
nonempty_text (some (Json.text s)) = if str_eq s "" then none else some s
nonempty_text _ = none

-- The arguments of a tool call; `loads` is `json.loads`, none where it raises.
call_arguments : (loads : String → Option Value) → Option Value → Option Fields
unfolding fields_of
call_arguments loads none = fields_of (loads "{}")
call_arguments loads (some (Json.text raw)) =
    if str_eq raw "" then some Json.end else fields_of (loads raw)
call_arguments loads (some (Json.object arguments)) = some arguments
call_arguments loads (some _) = none

pub record ToolCall : Type 0 where
  pub name : String
  pub arguments : Fields
  pub call_id : String

-- `_parse_tool_call`: `none` for the three Nones.
unfoldable pub parse_tool_call : (loads : String → Option Value) → Value → Option ToolCall
unfolding fields_of nonempty_text call_arguments
parse_tool_call loads call = do
  fields ← fields_of (some call)
  function ← fields_of (get "function" fields)
  name ← nonempty_text (get "name" function)
  call_id ← nonempty_text (get "id" fields)
  arguments ← call_arguments loads (get "arguments" function)
  some (record { name = name; arguments = arguments; call_id = call_id })

part_text : Value → Option String
part_text (Json.text s) = some s
part_text (Json.object item) = elim (get "text" item) [ some (Json.text s) ↦ some s | _ ↦ none ]
part_text _ = none

join_parts : Items → Option String
unfolding part_text
join_parts Json.nil = some ""
join_parts (Json.cons item items) = do
  first ← part_text item
  rest ← join_parts items
  some (concat first rest)

-- `_message_text`
unfoldable pub message_text : Option Value → Option String
unfolding join_parts
message_text (some (Json.text s)) = some s
message_text (some (Json.array items)) = join_parts items
message_text _ = none

-- `_output_allowance`
unfoldable pub output_allowance : Fields → ℕ
output_allowance fields = elim (get "max_tokens" fields) [
  | some (Json.int (pos n)) ↦ if ltb n 1 then 8192 else n
  | _ ↦ 8192
]
