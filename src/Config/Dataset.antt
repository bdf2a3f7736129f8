-- ===== src/Config/Dataset.antt =====
-- config.py: `load_dataset`, `_assertions` and `_assertion_spec`. `none` is an exception; the lines of
-- the file are an argument.
pub mod Specs
pub mod Accepted
use agent_storm.Prelude.{
  ℕ, zero, suc, ◌*◌, String, Bool, true, false, not, ◌&&◌, Option, none, some, List, [], ◌∷◌, ◌>>=◌,
  guard, ◌==◌, ltb, str_eq, if◌then◌else◌, has_text, is_blank, is_empty, concat, decimal,
  split_colon, count_colons, Dict,
}
use agent_storm.Prelude.Int.{pos, negsuc}
use agent_storm.Models.{
  Value, Items, Fields, AssertionSpec, exact, contains, regex, json_schema, tool_path, latency,
  python, TestCase,
}
use agent_storm.Models.Json
use agent_storm.Models.Json.{get}
use agent_storm.Config.Readers.{get_or, only_keys, Python, text_or}

-- `_optional_string`
unfoldable pub optional_string : Option Value → Option String
optional_string (some (Json.text s)) = if str_eq s "" then none else some s
optional_string _ = none

dict_of : Fields → Dict Value
dict_of Json.end = []
dict_of (Json.field k v fields) = (k, v) ∷ dict_of fields

-- `_metadata`
unfoldable pub metadata_of : Option Value → Dict Value
unfolding dict_of
metadata_of (some (Json.object fields)) = dict_of fields
metadata_of _ = []

any_text : Option Value → Option String
any_text (some (Json.text s)) = some s
any_text _ = none

schema_of : Option Value → Option Value
schema_of (some (Json.boolean b)) = some (Json.boolean b)
schema_of (some (Json.object fields)) = some (Json.object fields)
schema_of _ = none

nonempty_texts : Items → Option (List String)
nonempty_texts Json.nil = some []
nonempty_texts (Json.cons (Json.text s) items) = do
  present ← guard (not (str_eq s ""))
  rest ← nonempty_texts items
  some (s ∷ rest)
nonempty_texts (Json.cons _ items) = none

path_of : Option Value → Option (List String)
unfolding nonempty_texts
path_of (some (Json.array items)) = nonempty_texts items
path_of _ = none

-- `float(max_ms)` where it is positive: `max_ms <= 0` does not hold of NaN.
positive_number : Option Value → Option Json.Float
positive_number (some (Json.int (pos n))) = do
  positive ← guard (ltb 0 n)
  some (Json.finite (pos n) 0)
positive_number (some (Json.float (Json.finite (pos n) over))) = do
  positive ← guard (ltb 0 n)
  some (Json.finite (pos n) over)
positive_number (some (Json.float (Json.infinite true))) = some (Json.infinite true)
positive_number (some (Json.float Json.nan)) = some Json.nan
positive_number _ = none

both_parts : Option (String × String) → Bool
both_parts none = false
both_parts (some (before, after)) = not (str_eq before "") && not (str_eq after "")

entrypoint_of : Option Value → Option String
unfolding both_parts
entrypoint_of (some (Json.text s)) = do
  one ← guard (count_colons s == 1)
  whole ← guard (both_parts (split_colon s))
  some s
entrypoint_of _ = none

config_of : Value → Option Fields
config_of (Json.object fields) = some fields
config_of _ = none

-- `_assertion_spec`, with the test on unknown fields of each type before it.
unfoldable pub exact_spec : Fields → Option AssertionSpec
unfolding any_text
exact_spec fields = do
  known ← guard (only_keys fields ("type" ∷ "value" ∷ []))
  value ← any_text (get "value" fields)
  some (exact value)

unfoldable pub contains_spec : Fields → Option AssertionSpec
unfolding any_text
contains_spec fields = do
  known ← guard (only_keys fields ("type" ∷ "value" ∷ []))
  value ← any_text (get "value" fields)
  some (contains value)

unfoldable pub regex_spec : Fields → Option AssertionSpec
unfolding any_text
regex_spec fields = do
  known ← guard (only_keys fields ("type" ∷ "pattern" ∷ []))
  pattern ← any_text (get "pattern" fields)
  some (regex pattern)

unfoldable pub schema_spec : Fields → Option AssertionSpec
unfolding schema_of
schema_spec fields = do
  known ← guard (only_keys fields ("type" ∷ "schema" ∷ []))
  schema ← schema_of (get "schema" fields)
  some (json_schema schema)

unfoldable pub path_spec : Fields → Option AssertionSpec
unfolding path_of
path_spec fields = do
  known ← guard (only_keys fields ("type" ∷ "path" ∷ []))
  path ← path_of (get "path" fields)
  some (tool_path path)

unfoldable pub latency_spec : Fields → Option AssertionSpec
unfolding positive_number
latency_spec fields = do
  known ← guard (only_keys fields ("type" ∷ "max_ms" ∷ []))
  max_ms ← positive_number (get "max_ms" fields)
  some (latency max_ms)

unfoldable pub python_spec : Fields → Option AssertionSpec
unfolding entrypoint_of config_of
python_spec fields = do
  known ← guard (only_keys fields ("type" ∷ "entrypoint" ∷ "config" ∷ []))
  entrypoint ← entrypoint_of (get "entrypoint" fields)
  config ← config_of (get_or "config" (Json.object Json.end) fields)
  some (python entrypoint config)

-- `_assertion_spec`
unfoldable pub typed_spec : String → Fields → Option AssertionSpec
typed_spec kind fields =
    if str_eq kind "exact"
    then exact_spec fields
    else if str_eq kind "contains"
    then contains_spec fields
    else if str_eq kind "regex"
    then regex_spec fields
    else if str_eq kind "json_schema"
    then schema_spec fields
    else if str_eq kind "tool_path"
    then path_spec fields
    else if str_eq kind "latency"
    then latency_spec fields
    else if str_eq kind "python"
    then python_spec fields
    else none

unfoldable pub spec_of : Value → Option AssertionSpec
unfolding any_text
spec_of (Json.object fields) = do kind ← any_text (get "type" fields); typed_spec kind fields
spec_of _ = none

unfoldable pub specs_of : Items → Option (List AssertionSpec)
specs_of Json.nil = some []
specs_of (Json.cons item items) = do spec ← spec_of item; rest ← specs_of items; some (spec ∷ rest)

-- `_assertions`
unfoldable pub assertions_of : Option Value → Option (List AssertionSpec)
assertions_of none = some []
assertions_of (some Json.null) = some []
assertions_of (some (Json.array items)) = specs_of items
assertions_of (some _) = none

prompt_of : Option Value → Option String
prompt_of (some (Json.text s)) = if is_blank s then none else some s
prompt_of _ = none

fields_in : Value → Option Fields
fields_in (Json.object fields) = some fields
fields_in _ = none

unless_blank : Bool → Option TestCase → Option (Option TestCase)
unless_blank true read = some none
unless_blank false none = none
unless_blank false (some test) = some (some test)

-- The rest of the lines, after one that was skipped or gave a case.
after_line :
    Option (Option TestCase)
    → Option (List TestCase)
    → (TestCase → Option (List TestCase))
    → Option (List TestCase)
after_line none skipped continued = none
after_line (some none) skipped continued = skipped
after_line (some (some test)) skipped continued = do rest ← continued test; some (test ∷ rest)

module _ (py : Python) where
  -- The case of a line that is not blank.
  unfoldable pub case_of : (line_number : ℕ) (seen : List String) → Value → Option TestCase
  unfolding prompt_of fields_in
  case_of line_number seen raw = do
    fields ← fields_in raw
    prompt ← prompt_of (get "input" fields)
    fresh ←
        guard (
          not (has_text (text_or py (concat "case-" (decimal line_number)) (get "id" fields)) seen))
    assertions ← assertions_of (get "assertions" fields)
    some (record {
      case_id = text_or py (concat "case-" (decimal line_number)) (get "id" fields);
      prompt = prompt;
      expected_contains = optional_string (get "expected_contains" fields);
      assertions = assertions;
      metadata = metadata_of (get "metadata" fields);
    })

  -- One line; `some none` is a blank one.
  read_line : (line_number : ℕ) (seen : List String) (line : String) → Option (Option TestCase)
  unfolding unless_blank
  read_line line_number seen line =
      unless_blank (is_blank line) (py.loads line >>= λ raw. case_of line_number seen raw)

  unfoldable pub load_lines :
      (line_number : ℕ) (seen : List String) → List String → Option (List TestCase)
  unfolding read_line after_line
  load_lines line_number seen [] = some []
  load_lines line_number seen (line ∷ lines) =
      after_line (read_line line_number seen line) (load_lines (suc line_number) seen lines)
        (λ test. load_lines (suc line_number) (test.case_id ∷ seen) lines)

  -- `load_dataset`
  unfoldable pub load_dataset : List String → Option (List TestCase)
  load_dataset lines = do
    cases ← load_lines 1 [] lines
    some_case ← guard (not (is_empty cases))
    some cases
