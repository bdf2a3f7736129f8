-- ===== src/Config/Readers.antt =====
-- config.py: the readers of single fields. `none` is the ValueError, whatever its message.
pub mod Again
use agent_storm.Prelude.{
  ℕ, suc, String, Bool, true, false, not, ◌&&◌, ◌||◌, Option, none, some, List, [], ◌∷◌, ◌>>=◌,
  guard, ltb, leb, has_text, if◌then◌else◌, any_of, is_blank, byte_count, ◌==◌, str_eq, decimal,
  concat,
}
use agent_storm.Prelude.Int.{ℤ, pos, negsuc}
use agent_storm.Models.{Value, Items, Fields}
use agent_storm.Models.Json
use agent_storm.Models.Json.{get}
use agent_storm.Config.{Ratio}

-- `d.get(key, default)`
abbrev pub get_or : String → Value → Fields → Value
get_or key default fields = elim (get key fields) [ none ↦ default | some value ↦ value ]

abbrev pub is_present : String → Fields → Bool
is_present key fields = elim (get key fields) [ none ↦ false | some value ↦ true ]

-- `_only_keys`
unfoldable pub only_keys : Fields → List String → Bool
only_keys Json.end allowed = true
only_keys (Json.field key value fields) allowed = has_text key allowed && only_keys fields allowed

-- `_strict_int`
unfoldable pub strict_int : Option Value → Option ℤ
strict_int (some (Json.int n)) = some n
strict_int _ = none

-- An integer, and the test that it is at least `minimum`.
unfoldable pub at_least : ℕ → ℤ → Option ℕ
at_least minimum (pos n) = if leb minimum n then some n else none
at_least minimum (negsuc n) = none

unfoldable pub int_from : (minimum : ℕ) → Option Value → Option ℕ
unfolding strict_int at_least
int_from minimum value = do n ← strict_int value; at_least minimum n

-- `_strict_number`, and the test that it lies between 0 and 1.
unfoldable pub unit_ratio : Option Value → Option Ratio
unit_ratio (some (Json.int (pos n))) =
    if leb n 1 then some (record { numerator = n; over = 0 }) else none
unit_ratio (some (Json.float (Json.finite (pos n) over))) =
    if leb n (suc over) then some (record { numerator = n; over = over }) else none
unit_ratio _ = none

-- `_nonempty_string`
unfoldable pub nonempty_string : (max_bytes : ℕ) → Option Value → Option String
nonempty_string max_bytes (some (Json.text s)) =
    if is_blank s || ltb max_bytes (byte_count s) then none else some s
nonempty_string max_bytes _ = none

strings : Items → Option (List String)
unfolding nonempty_string
strings Json.nil = some []
strings (Json.cons item items) = do
  s ← nonempty_string 512 (some item)
  rest ← strings items
  some (s ∷ rest)

-- `len(names) == len(set(names))`
abbrev pub are_unique : List String → Bool
are_unique [] = true
are_unique (s ∷ names) = not (has_text s names) && are_unique names

abbrev are_unique_numbers : List ℕ → Bool
are_unique_numbers [] = true
are_unique_numbers (n ∷ numbers) = not (any_of (λ m. n == m) numbers) && are_unique_numbers numbers

-- `_string_selector`
unfoldable pub string_selector : Value → Option (List String)
unfolding strings
string_selector (Json.array items) = do
  parsed ← strings items
  unique ← guard (are_unique parsed)
  some parsed
string_selector _ = none

unfoldable pub integers : ℕ → Items → Option (List ℕ)
unfolding int_from
integers minimum Json.nil = some []
integers minimum (Json.cons item items) = do
  n ← int_from minimum (some item)
  rest ← integers minimum items
  some (n ∷ rest)

-- `_integer_selector`
unfoldable pub integer_selector : Value → (minimum : ℕ) → Option (List ℕ)
unfolding integers
integer_selector (Json.array items) minimum = do
  parsed ← integers minimum items
  unique ← guard (are_unique_numbers parsed)
  some parsed
integer_selector _ minimum = none

-- `not d.get(key)`
abbrev pub is_falsy : Option Value → Bool
is_falsy none = true
is_falsy (some Json.null) = true
is_falsy (some (Json.boolean b)) = not b
is_falsy (some (Json.int (pos n))) = n == 0
is_falsy (some (Json.float (Json.finite (pos n) over))) = n == 0
is_falsy (some (Json.text s)) = str_eq s ""
is_falsy (some (Json.array Json.nil)) = true
is_falsy (some (Json.object Json.end)) = true
is_falsy _ = false

-- What Python itself makes of values and texts: `str` of a float, list or dictionary, `int` and
-- `float` of a text, `re.compile`, `json.loads` and
-- a compact `json.dumps`. `none` is an exception.
pub record Python : Type 0 where
  pub repr : Value → String
  pub int_of_text : String → Option ℤ
  pub float_of_text : String → Option Json.Float
  pub compiles : String → Bool
  pub loads : String → Option Value
  pub dumps : Value → String

abbrev pub integer_text : ℤ → String
integer_text (pos n) = decimal n
integer_text (negsuc n) = concat "-" (decimal (suc n))

-- `str(value)`
unfoldable pub str_of : Python → Value → String
str_of python Json.null = "None"
str_of python (Json.boolean true) = "True"
str_of python (Json.boolean false) = "False"
str_of python (Json.int n) = integer_text n
str_of python (Json.text s) = s
str_of python value = python.repr value

-- `str(d.get(key) or default)`
unfoldable pub text_or : Python → String → Option Value → String
text_or python default none = default
text_or python default (some value) = if is_falsy (some value) then default else str_of python value

-- A fraction as the float that it stands for.
abbrev pub ratio : Ratio → Value
ratio r = Json.float (Json.finite (pos r.numerator) r.over)
