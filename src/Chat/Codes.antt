-- ===== src/Chat/Codes.antt =====
-- openai_compatible.py: provider codes, and the delay after an HTTP 429.
-- Delays are nanoseconds; a `Retry-After` header is a text.
use Prim.Native.String.{count}
use native.Mathlib.Nat.{pow-suc}
use agent_storm.Prelude.{
  All, codes, ◌↔◌, and_true, leb→le, le→leb, sym, ◌∙◌, eq_of_some-eq, ℕ, suc, ◌-◌, ◌*◌, ◌/◌, ◌^◌,
  strip, ◌≤◌, min, String, Bool, true, false, not, ◌&&◌, ◌||◌, Option, none, some, ◌≡◌, refl, ap,
  ◌⊎◌, ◌≢◌, concat, str_eq_iff, inl, inr, leb, str_eq, is_part, if◌then◌else◌, Bool-cases, arith,
  decimal,
}
use agent_storm.Prelude.Int.{ℤ, pos, negsuc}
use agent_storm.Models.{Value, Fields}
use agent_storm.Models.Json
use agent_storm.Models.Json.{get}
use agent_storm.Config.Readers.{Python}
use agent_storm.Runner.Metadata.{is_token_text, IsTokenCode, is_token_text_iff}

-- `_PROVIDER_CODE.fullmatch(text)`: 1 to 32 letters, digits, underscores, dots and dashes.
unfoldable pub is_provider_code : String → Bool
is_provider_code text = not (str_eq text "") && leb (count text) 32 && is_token_text text

-- `str(n)` of an `int`.
pub int_text : ℤ → String
int_text (pos n) = decimal n
int_text (negsuc n) = concat "-" (decimal (suc n))

-- The check against the secret.
leaks : (secret text : String) → Bool
leaks secret text =
    not (str_eq secret "") && (str_eq text secret || (leb 8 (count secret) && is_part secret text))

kept_code : String → String → String
unfolding is_provider_code leaks
kept_code secret text =
    if not (is_provider_code text) then "" else if leaks secret text then "" else text

code_text : String → Option Value → String
unfolding kept_code int_text
code_text secret (some (Json.int n)) = kept_code secret (int_text n)
code_text secret (some (Json.text s)) = kept_code secret s
code_text secret _ = ""

error_code_text : String → Option Value → String
unfolding code_text
error_code_text secret (some (Json.object error)) = code_text secret (get "code" error)
error_code_text secret _ = ""

-- `allowlisted_provider_code`
unfoldable pub allowlisted_provider_code : Option Fields → (secret : String) → String
unfolding error_code_text
allowlisted_provider_code none secret = ""
allowlisted_provider_code (some body) secret = error_code_text secret (get "error" body)

-- `_allowlisted_token`
unfoldable pub allowlisted_token : Option Value → String
unfolding is_provider_code int_text
allowlisted_token (some (Json.int n)) = if is_provider_code (int_text n) then int_text n else ""
allowlisted_token (some (Json.text s)) = if is_provider_code s then s else ""
allowlisted_token _ = ""

-- `retry_delay_seconds`
unfoldable pub retry_delay : (failed_attempts : ℕ) → Option ℕ → (initial maximum : ℕ) → ℕ
retry_delay failed_attempts none initial maximum = min maximum (initial * 2 ^ (failed_attempts - 1))
retry_delay failed_attempts (some retry_after) initial maximum = min maximum retry_after

-- A code of 1 to 32 letters, digits, underscores, dots and dashes.
pub record IsCode (text : String) : Type 0 where
  pub some_text : text ≢ ""
  pub short : count text ≤ 32
  pub plain : All IsTokenCode (codes text)

-- A text that is not the secret and, where the secret has at least eight characters, does not contain
-- it. An empty secret is none.
abbrev pub IsDiscreet : (secret text : String) → Type 0
IsDiscreet secret text =
    secret ≢ "" → (text ≢ secret) × (8 ≤ count secret → is_part secret text ≡ false)

is_provider_code_iff : (text : String) → (is_provider_code text ≡ true) ↔ IsCode text
unfolding is_provider_code
is_provider_code_iff text = (
  λ h.
      let (both, plain) =
        and_true (not (str_eq text "") && leb (count text) 32) (is_token_text text) h in
      let (filled, short) = and_true (not (str_eq text "")) (leb (count text) 32) both in
      record {
        some_text = λ e. let same = (str_eq_iff text "").1 e in ground (arith, filled, same);
        short = leb→le _ _ short;
        plain = (is_token_text_iff text).0 plain;
      },
  λ c.
      let filled : str_eq text "" ≡ false = ground (arith, str_eq_iff text "", c.some_text) in
      rw (filled, le→leb _ _ c.short, (is_token_text_iff text).1 c.plain) refl,
)

leaks_iff : (secret text : String) → (leaks secret text ≡ false) ↔ IsDiscreet secret text
unfolding leaks
leaks_iff secret text = ground (arith, str_eq_iff secret "", str_eq_iff text secret)

-- What is kept of a code.
abbrev pub IsKept : (secret given kept : String) → Type 0
IsKept secret given kept =
    ((kept ≡ given) × IsCode given × IsDiscreet secret given)
    ⊎ ((kept ≡ "") × ¬ (IsCode given × IsDiscreet secret given))

kept_code-IsKept : (secret text : String) → IsKept secret text (kept_code secret text)
unfolding kept_code
kept_code-IsKept secret text = elim (Bool-cases (is_provider_code text)) [
  | inl ok ↦ elim (Bool-cases (leaks secret text)) [
    | inl bad ↦ rw (ok, bad) (inr (refl, λ (c, d). let wrong = (leaks_iff secret text).1 d in cc))
    | inr good ↦
        rw (ok, good) (inl (refl, (is_provider_code_iff text).0 ok, (leaks_iff secret text).0 good))
  ]
  | inr ko ↦ rw ko (inr (refl, λ (c, d). let wrong = (is_provider_code_iff text).1 c in cc))
]

-- The code that an error body gives, as a text: that of the object under `error`.
abbrev pub Gives : Option Fields → String → Type 0
Gives body given =
    (fields : Fields) × (error : Fields) × (body ≡ some fields)
    × (get "error" fields ≡ some (Json.object error))
    × ((get "code" error ≡ some (Json.text given))
        ⊎ ((n : ℤ) × (get "code" error ≡ some (Json.int n)) × (given ≡ int_text n)))

-- What is kept of a body.
abbrev pub IsAllowed : Option Fields → (secret kept : String) → Type 0
IsAllowed body secret kept = (kept ≡ "") ⊎ (Gives body kept × IsCode kept × IsDiscreet secret kept)

by_code :
    (body : Option Fields) (fields error : Fields) (secret : String) (value : Option Value)
    → body ≡ some fields
    → get "error" fields ≡ some (Json.object error)
    → get "code" error ≡ value
    → IsAllowed body secret (code_text secret value)
unfolding code_text
by_code body fields error secret (some (Json.int n)) b e c =
    elim (kept_code-IsKept secret (int_text n)) [
      | inl (same, i, d) ↦ rw same (inr ((fields, error, b, e, inr (n, c, refl)), i, d))
      | inr (empty, barred) ↦ inl empty
    ]
by_code body fields error secret (some (Json.text s)) b e c = elim (kept_code-IsKept secret s) [
  | inl (same, i, d) ↦ rw same (inr ((fields, error, b, e, inl c), i, d))
  | inr (empty, barred) ↦ inl empty
]
by_code body fields error secret _ b e c = inl refl

by_error :
    (body : Option Fields) (fields : Fields) (secret : String) (value : Option Value)
    → body ≡ some fields
    → get "error" fields ≡ value
    → IsAllowed body secret (error_code_text secret value)
unfolding error_code_text
by_error body fields secret (some (Json.object error)) b e =
    by_code body fields error secret (get "code" error) b e refl
by_error body fields secret _ b e = inl refl

kept_whole :
    (secret given : String)
    → IsCode given
    → IsDiscreet secret given
    → kept_code secret given ≡ given
kept_whole secret given i d = elim (kept_code-IsKept secret given) [
  | inl (same, c, e) ↦ same
  | inr (empty, barred) ↦ absurd (barred (i, d))
]

-- Whatever body a provider sends: the code that is kept of it is empty, or it is the text or the
-- integer under `error` and `code`, has 1 to 32 letters, digits, underscores, dots and dashes, is not
-- the API key, and does not contain it where the key has at least eight characters. A code that is
-- all this is kept; a shorter key may be part of it.
pub allowlisted_provider_code-IsAllowed :
    (body : Option Fields) (secret : String)
    → IsAllowed body secret (allowlisted_provider_code body secret)
      × ((given : String)
          → Gives body given
          → IsCode given
          → IsDiscreet secret given
          → allowlisted_provider_code body secret ≡ given)
unfolding allowlisted_provider_code error_code_text code_text
allowlisted_provider_code-IsAllowed none secret = (inl refl, λ given (fields, error, b, e, c). cc)
allowlisted_provider_code-IsAllowed (some body) secret = (
  by_error (some body) body secret (get "error" body) refl refl,
  λ given (fields, error, b, e, c) i d.
      let same : fields ≡ body = sym (eq_of_some-eq b) in
      let found : get "error" body ≡ some (Json.object error) = rw same at e in
      elim c [
        | inl s ↦ rw (found, s) (kept_whole secret given i d)
        | inr (n, s, t) ↦
            rw (found, s) (ap (kept_code secret) (sym t) ∙ kept_whole secret given i d)
      ],
)

pub retry_delay_le :
    (failed : ℕ) (retry_after : Option ℕ) (initial maximum : ℕ)
    → retry_delay failed retry_after initial maximum ≤ maximum
unfolding retry_delay
retry_delay_le failed none initial maximum = omega arith
retry_delay_le failed (some after) initial maximum = omega arith

retry_delay-suc :
    (failed initial maximum : ℕ)
    → retry_delay (suc failed) none initial maximum ≡ min maximum (initial * 2 ^ failed)
unfolding retry_delay
retry_delay-suc failed initial maximum = ap (λ e. min maximum (initial * 2 ^ e)) (omega arith)

retry_delay-after :
    (failed initial after maximum : ℕ)
    → after ≤ maximum
    → retry_delay failed (some after) initial maximum ≡ after
unfolding retry_delay
retry_delay-after failed initial after maximum h = omega arith

min_doubled : (x y m : ℕ) → y ≡ 2 * x → min m y ≡ min m (2 * min m x)
min_doubled x y m e = omega arith

-- Every delay is at most the configured maximum; a `Retry-After` below the maximum is followed
-- exactly; and without one the delay doubles from one failure to the next, until the maximum.
pub retry_delay_bounds :
    (failed : ℕ) (retry_after : Option ℕ) (after initial maximum : ℕ)
    → (retry_delay failed retry_after initial maximum ≤ maximum)
      × (after ≤ maximum → retry_delay failed (some after) initial maximum ≡ after)
      × (retry_delay (suc (suc failed)) none initial maximum
          ≡ min maximum (2 * retry_delay (suc failed) none initial maximum))
retry_delay_bounds failed retry_after after initial maximum = (
  retry_delay_le failed retry_after initial maximum,
  retry_delay-after failed initial after maximum,
  rw (retry_delay-suc failed initial maximum, retry_delay-suc (suc failed) initial maximum)
      (min_doubled (initial * 2 ^ failed) (initial * 2 ^ suc failed) maximum
        (grind (arith, pow-suc 2 failed))),
)

-- What a `Retry-After` header says as an instant.
from_date : Option ℕ → (now : ℕ) → Option ℕ
from_date none now = none
from_date (some moment) now = some (moment - now)

-- A finite number of seconds is in nanoseconds, and not negative; all else is read as a date.
delta_or : Option Json.Float → (date : Option ℕ) → Option ℕ
delta_or (some (Json.finite (pos n) over)) date = some (n * 1_000_000_000 / suc over)
delta_or (some (Json.finite (negsuc n) over)) date = some 0
delta_or _ date = date

-- `retry_after_seconds`, in nanoseconds from `now`, of the header's text. `parse_date` is
-- `parsedate_to_datetime`: nanoseconds since the epoch, without a zone in UTC, and 0 before it.
unfoldable pub retry_after :
    Python → (parse_date : String → Option ℕ) → (now : ℕ) → (header : Option String) → Option ℕ
unfolding from_date delta_or
retry_after py parse_date now none = none
retry_after py parse_date now (some raw) =
    let text = strip raw in
    if str_eq text ""
    then none
    else delta_or (py.float_of_text text) (from_date (parse_date text) now)
