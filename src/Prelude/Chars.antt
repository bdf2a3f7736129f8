-- ===== src/Prelude/Chars.antt =====
-- Tests on the characters of texts.
use Prim.Native.Nat.{ℕ, ◌+◌}
use Prim.Native.Char.{code}
use Prim.Native.String.{String, count}
use mathlib.Core.Bool.{Bool, true, false, not, ◌&&◌, ◌||◌}
use mathlib.Core.Option.{Option, none, some}
use agent_storm.Prelude.Text.{str_eq}
use agent_storm.Prelude.Tests.{◌==◌, ltb, leb, is_some, if◌then◌else◌}

-- `not s.strip()`
is_space : ℕ → Bool
is_space c =
    (leb 9 c && leb c 13)
    || (leb 28 c && leb c 32)
    || c == 133
    || c == 160
    || c == 5760
    || (leb 8192 c && leb c 8202)
    || c == 8232
    || c == 8233
    || c == 8239
    || c == 8287
    || c == 12288

unfoldable pub is_blank : String → Bool
unfolding is_space
is_blank String.[] = true
is_blank (String.◌∷◌ c s) = is_space (code c) && is_blank s

-- `len(s.encode("utf-8"))`
unfoldable pub code_bytes : ℕ → ℕ
code_bytes c = if ltb c 128 then 1 else if ltb c 2048 then 2 else if ltb c 65536 then 3 else 4

unfoldable pub byte_count : String → ℕ
unfolding code_bytes
byte_count String.[] = 0
byte_count (String.◌∷◌ c s) = code_bytes (code c) + byte_count s

-- What follows a prefix.
strip_prefix : (prefix text : String) → Option String
strip_prefix String.[] s = some s
strip_prefix (String.◌∷◌ c p) String.[] = none
strip_prefix (String.◌∷◌ c p) (String.◌∷◌ d s) =
    let rest = strip_prefix p s in if code c == code d then rest else none

is_hex : String → Bool
is_hex String.[] = true
is_hex (String.◌∷◌ c s) =
    ((leb b'0' (code c) && leb (code c) b'9') || (leb b'a' (code c) && leb (code c) b'f'))
    && is_hex s

-- `re.fullmatch(r"sha256:[0-9a-f]{64}", s)`
unfoldable pub is_sha256_digest : String → Bool
unfolding strip_prefix is_hex
is_sha256_digest s = elim (strip_prefix "sha256:" s) [
  | none ↦ false
  | some digest ↦ count digest == 64 && is_hex digest
]

-- `part in text`
unfoldable pub is_part : (part text : String) → Bool
unfolding strip_prefix
is_part part String.[] = str_eq part ""
is_part part (String.◌∷◌ c s) = is_some (strip_prefix part (String.◌∷◌ c s)) || is_part part s

-- `text.split(":", 1)` into two parts; `none` where there is no colon.
unfoldable pub split_colon : String → Option (String × String)
split_colon String.[] = none
split_colon (String.◌∷◌ c s) =
    let rest = split_colon s in
    if code c == b':'
    then some ("", s)
    else elim rest [ none ↦ none | some (before, after) ↦ some (String.◌∷◌ c before, after) ]

-- `text.startswith(prefix)`
unfoldable pub starts_with : (prefix text : String) → Bool
unfolding strip_prefix
starts_with prefix s = is_some (strip_prefix prefix s)

-- `text.count(":")`
unfoldable pub count_colons : String → ℕ
count_colons String.[] = 0
count_colons (String.◌∷◌ c s) = (if code c == b':' then 1 else 0) + count_colons s

-- `any(character.isspace() for character in text)`
unfoldable pub has_space : String → Bool
unfolding is_space
has_space String.[] = false
has_space (String.◌∷◌ c s) = is_space (code c) || has_space s

ends_in_space : String → Bool
unfolding is_space
ends_in_space String.[] = false
ends_in_space (String.◌∷◌ c String.[]) = is_space (code c)
ends_in_space (String.◌∷◌ c s) = ends_in_space s

-- `text == text.strip()`
unfoldable pub is_stripped : String → Bool
unfolding is_space ends_in_space
is_stripped String.[] = true
is_stripped (String.◌∷◌ c s) = not (is_space (code c)) && not (ends_in_space (String.◌∷◌ c s))

-- `any(character in text for character in "\r\n\t")`
unfoldable pub has_control : String → Bool
has_control String.[] = false
has_control (String.◌∷◌ c s) = code c == 13 || code c == 10 || code c == 9 || has_control s

-- `text.endswith(suffix)`
unfoldable pub is_suffix : (suffix text : String) → Bool
is_suffix suffix String.[] = str_eq suffix ""
is_suffix suffix (String.◌∷◌ c s) = str_eq suffix (String.◌∷◌ c s) || is_suffix suffix s

-- `text.rstrip("/")`
unfoldable pub without_slashes : String → String
without_slashes String.[] = ""
without_slashes (String.◌∷◌ c s) =
    let rest = without_slashes s in
    if code c == b'/' && str_eq rest "" then "" else String.◌∷◌ c rest

-- `len(text)`
abbrev pub char_count : String → ℕ
char_count = count

left_stripped : String → String
unfolding is_space
left_stripped String.[] = ""
left_stripped (String.◌∷◌ c s) =
    let rest = left_stripped s in if is_space (code c) then rest else String.◌∷◌ c s

right_stripped : String → String
unfolding is_space
right_stripped String.[] = ""
right_stripped (String.◌∷◌ c s) =
    let rest = right_stripped s in
    if is_space (code c) && str_eq rest "" then "" else String.◌∷◌ c rest

-- `text.strip()`
unfoldable pub strip : String → String
unfolding left_stripped right_stripped
strip s = right_stripped (left_stripped s)

-- Whether `text.lower()` is a word of small letters; no other letter becomes one of those in `true`
-- and `false`.
lowered_is : (word text : String) → Bool
lowered_is String.[] String.[] = true
lowered_is (String.◌∷◌ w word) (String.◌∷◌ c s) =
    (code c == code w || (code c + 32 == code w && leb b'A' (code c) && leb (code c) b'Z'))
    && lowered_is word s
lowered_is _ _ = false

unfoldable pub is_true : String → Bool
unfolding lowered_is
is_true s = lowered_is "true" s

unfoldable pub is_false : String → Bool
unfolding lowered_is
is_false s = lowered_is "false" s
