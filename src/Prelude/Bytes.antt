-- ===== src/Prelude/Bytes.antt =====
-- Characters by their codes, and a text cut to a number of bytes.
use Prim.Native.Nat.{ℕ, ◌+◌, ◌-◌, ◌≤◌}
use Prim.Native.Char.{code}
use Prim.Native.String.{String}
use native.Mathlib.Omega.{arith}
use mathlib.Core.Bool.{◌&&◌, ◌||◌}
use mathlib.Core.Option.{Option, none, some}
use mathlib.Core.List.{List, [], ◌∷◌, ◌++◌}
use mathlib.Core.Path.{◌≡◌, refl, ap}
use mathlib.Core.Logic.{inl, inr}
use agent_storm.Prelude.Tests.{◌==◌, leb, leb→le, if◌then◌else◌, if_elim, Bool-cases}
use agent_storm.Prelude.Chars.{code_bytes, byte_count}

-- The characters, by their codes.
unfoldable pub codes : String → List ℕ
codes String.[] = []
codes (String.◌∷◌ c s) = code c ∷ codes s

-- One character of `re.sub(r"[^a-z0-9]", "", text.lower())`. Besides the capital letters, the Kelvin
-- sign and the capital I with a dot have such a letter in their small form.
plain_letter : ℕ → Option ℕ
plain_letter c =
    if (leb b'a' c && leb c b'z') || (leb b'0' c && leb c b'9')
    then some c
    else if leb b'A' c && leb c b'Z'
    then some (c + 32)
    else if c == 8490
    then some b'k'
    else if c == 304
    then some b'i'
    else none

keep_letter : Option ℕ → List ℕ → List ℕ
keep_letter none rest = rest
keep_letter (some c) rest = c ∷ rest

-- `re.sub(r"[^a-z0-9]", "", text.lower())`
unfoldable pub plain_letters : String → List ℕ
unfolding plain_letter keep_letter
plain_letters String.[] = []
plain_letters (String.◌∷◌ c s) = keep_letter (plain_letter (code c)) (plain_letters s)

-- `text.encode("utf-8")[:limit].decode("utf-8", errors="ignore")`: the characters before the first one
-- that is not whole.
unfoldable pub byte_prefix : (limit : ℕ) → String → String
unfolding code_bytes
byte_prefix limit String.[] = ""
byte_prefix limit (String.◌∷◌ c s) =
    let bytes = code_bytes (code c) in
    let rest = byte_prefix (limit - bytes) s in if leb bytes limit then String.◌∷◌ c rest else ""

pub byte_count-byte_prefix : (limit : ℕ) (s : String) → byte_count (byte_prefix limit s) ≤ limit
unfolding byte_count byte_prefix
byte_count-byte_prefix limit String.[] = omega arith
byte_count-byte_prefix limit (String.◌∷◌ c s) =
    let bytes = code_bytes (code c) in
    if_elim (λ t. byte_count t ≤ limit) (leb bytes limit) _ _
      (λ h.
        let rest = byte_count-byte_prefix (limit - bytes) s in
        let fits = leb→le bytes limit h in omega arith)
      (λ h. omega arith)

-- What is left are the first characters.
pub codes-byte_prefix :
    (limit : ℕ) (s : String) → (rest : List ℕ) × (codes s ≡ codes (byte_prefix limit s) ++ rest)
unfolding byte_prefix codes
codes-byte_prefix limit String.[] = ([], refl)
codes-byte_prefix limit (String.◌∷◌ c s) =
    let (rest, e) = codes-byte_prefix (limit - code_bytes (code c)) s in
    elim (Bool-cases (leb (code_bytes (code c)) limit)) [
      | inl f ↦ (rest, rw f (ap (λ t. code c ∷ t) e))
      | inr f ↦ (codes (String.◌∷◌ c s), rw f refl)
    ]
