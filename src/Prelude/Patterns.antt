-- ===== src/Prelude/Patterns.antt =====
-- The regular expressions that the configuration is checked with.
use Prim.Native.Nat.{ℕ, ◌+◌, ◌-◌, ◌*◌, ◌^◌}
use Prim.Native.Char.{code}
use Prim.Native.String.{String, count}
use mathlib.Core.Bool.{Bool, true, false, ◌&&◌, ◌||◌}
use mathlib.Core.Option.{Option, none, some}
use agent_storm.Prelude.Text.{str_eq}
use agent_storm.Prelude.Tests.{◌==◌, leb, if◌then◌else◌, guard, ◌>>=◌}
use agent_storm.Prelude.Chars.{split_colon}

-- `[A-Za-z_]` and `[A-Za-z0-9_]`
is_letter : ℕ → Bool
is_letter c = (leb b'A' c && leb c b'Z') || (leb b'a' c && leb c b'z') || c == b'_'

is_word : ℕ → Bool
unfolding is_letter
is_word c = is_letter c || (leb b'0' c && leb c b'9')

all_word : String → Bool
unfolding is_word
all_word String.[] = true
all_word (String.◌∷◌ c s) = is_word (code c) && all_word s

-- `[A-Za-z_][A-Za-z0-9_]*`
unfoldable pub is_identifier : String → Bool
unfolding is_letter all_word
is_identifier String.[] = false
is_identifier (String.◌∷◌ c s) = is_letter (code c) && all_word s

-- Identifiers with dots between them, from an identifier's start or inside one.
is_dotted : (inside : Bool) → String → Bool
unfolding is_letter is_word
is_dotted inside String.[] = inside
is_dotted true (String.◌∷◌ c s) =
    let same = is_dotted true s in
    let next = is_dotted false s in if code c == b'.' then next else is_word (code c) && same
is_dotted false (String.◌∷◌ c s) = is_letter (code c) && is_dotted true s

-- `[A-Za-z_][A-Za-z0-9_]*(\.[A-Za-z_][A-Za-z0-9_]*)*:[A-Za-z_][A-Za-z0-9_]*`
unfoldable pub is_reference : String → Bool
unfolding is_dotted is_identifier
is_reference s = elim (split_colon s) [
  | none ↦ false
  | some (module_name, function_name) ↦ is_dotted false module_name && is_identifier function_name
]

-- `text.split(".", 1)`, as for the colon.
split_dot : String → Option (String × String)
split_dot String.[] = none
split_dot (String.◌∷◌ c s) =
    let rest = split_dot s in
    if code c == b'.'
    then some ("", s)
    else elim rest [ none ↦ none | some (before, after) ↦ some (String.◌∷◌ c before, after) ]

-- The value of a text of digits, after `value`.
digits_value : (value : ℕ) → String → Option ℕ
digits_value value String.[] = some value
digits_value value (String.◌∷◌ c s) =
    let rest = digits_value (value * 10 + (code c - b'0')) s in
    if leb b'0' (code c) && leb (code c) b'9' then rest else none

-- `0|[1-9][0-9]{0,17}`
is_plain_whole : String → Bool
is_plain_whole String.[] = false
is_plain_whole (String.◌∷◌ c s) = if code c == b'0' then str_eq s "" else leb (count s) 17

whole_part : String → Option ℕ
unfolding is_plain_whole digits_value
whole_part s = do plain ← guard (is_plain_whole s); digits_value 0 s

-- `[0-9]{1,12}`, in units of 10 ^ -12.
fraction_part : String → Option ℕ
unfolding digits_value
fraction_part s = do
  sized ← guard (leb 1 (count s) && leb (count s) 12)
  n ← digits_value 0 s
  some (n * 10 ^ (12 - count s))

-- The units of 10 ^ -12 of a text that matches `(0|[1-9][0-9]{0,17})(\.[0-9]{1,12})?`.
unfoldable pub decimal_units : String → Option ℕ
unfolding split_dot whole_part fraction_part
decimal_units s = elim (split_dot s) [
  | none ↦ do n ← whole_part s; some (n * 10 ^ 12)
  | some (whole, fraction) ↦ do
    n ← whole_part whole
    m ← fraction_part fraction
    some (n * 10 ^ 12 + m)
]
