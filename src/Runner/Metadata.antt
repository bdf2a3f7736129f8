-- ===== src/Runner/Metadata.antt =====
-- runner.py: what an attempt takes from the metadata of its response.
use Prim.Native.Char.{code}
use Prim.Native.String.{count}
use agent_storm.Prelude.{
  All, codes, ◌↔◌, ◌⊎◌, ◌≤◌, and_true, inl, inr, refl, arith, ◌≡◌, ℕ, ◌≤◌, String, Bool, true, not,
  ◌&&◌, ◌||◌, Option, none, some, ◌≡◌, refl, ◌⊎◌, inl, inr, ◌==◌, ltb, leb, str_eq, if◌then◌else◌,
  Dict, lookup, is_empty, Bool-cases, arith,
}
use agent_storm.Prelude.Int.{pos}
use agent_storm.Models.{Value, Items}
use agent_storm.Models.Json

-- The characters that a provider token may have.
is_token_code : ℕ → Bool
is_token_code c =
    (leb b'A' c && leb c b'Z')
    || (leb b'a' c && leb c b'z')
    || (leb b'0' c && leb c b'9')
    || c == b'_'
    || c == b'.'
    || c == b'-'

unfoldable pub is_token_text : String → Bool
unfolding is_token_code
is_token_text String.[] = true
is_token_text (String.◌∷◌ c s) = is_token_code (code c) && is_token_text s

-- A letter, a digit, an underscore, a dot or a dash, by its code.
abbrev pub IsTokenCode : ℕ → Type 0
IsTokenCode c =
    ((65 ≤ c) × (c ≤ 90))
    ⊎ ((97 ≤ c) × (c ≤ 122))
    ⊎ ((48 ≤ c) × (c ≤ 57))
    ⊎ (c ≡ 95)
    ⊎ (c ≡ 46)
    ⊎ (c ≡ 45)

is_token_code_iff : (c : ℕ) → (is_token_code c ≡ true) ↔ IsTokenCode c
unfolding is_token_code
is_token_code_iff c = ground arith

pub is_token_text_iff : (s : String) → (is_token_text s ≡ true) ↔ All IsTokenCode (codes s)
unfolding is_token_text codes
is_token_text_iff String.[] = (λ h. tt, λ h. refl)
is_token_text_iff (String.◌∷◌ c s) = (
  λ h.
      let (first, rest) = and_true (is_token_code (code c)) (is_token_text s) h in
      ((is_token_code_iff (code c)).0 first, (is_token_text_iff s).0 rest),
  λ (first, rest). rw ((is_token_code_iff (code c)).1 first, (is_token_text_iff s).1 rest) refl,
)

-- `_provider_token`
unfoldable pub provider_token : Option Value → String
unfolding is_token_text
provider_token (some (Json.text value)) =
    if str_eq value "" || ltb 32 (count value)
    then ""
    else if not (is_token_text value)
    then ""
    else value
provider_token _ = ""

-- The loop of `_last_rate_limit_code`.
last_token : String → Items → String
unfolding provider_token
last_token last Json.nil = last
last_token last (Json.cons value items) =
    last_token
      (if str_eq (provider_token (some value)) "" then last else provider_token (some value)) items

rate_limit_code_of : Option Value → String
unfolding last_token
rate_limit_code_of (some (Json.array codes)) = last_token "" codes
rate_limit_code_of _ = ""

-- `_last_rate_limit_code`
last_rate_limit_code : Dict Value → String
unfolding rate_limit_code_of
last_rate_limit_code metadata =
    rate_limit_code_of (lookup "agentstorm.provider.rate_limit_codes" metadata)

-- `_attempt_provider_code`
unfoldable pub attempt_provider_code : Option (Dict Value) → String
unfolding last_rate_limit_code provider_token
attempt_provider_code none = ""
attempt_provider_code (some metadata) =
    let terminal = provider_token (lookup "agentstorm.provider.error_code" metadata) in
    if is_empty metadata
    then ""
    else if not (str_eq terminal "")
    then terminal
    else last_rate_limit_code metadata

-- `_rate_limit_events`
unfoldable pub rate_limit_events : Option (Dict Value) → ℕ
rate_limit_events none = 0
rate_limit_events (some metadata) = elim (lookup "agentstorm.provider.rate_limit_events" metadata) [
  | some (Json.int (pos n)) ↦ n
  | _ ↦ 0
]

-- What may be kept of a provider's text: nothing, or at most 32 characters of the allowed ones.
abbrev pub IsSafeToken : String → Type 0
IsSafeToken s = (s ≡ "") ⊎ ((count s ≤ 32) × (is_token_text s ≡ true))

provider_token-IsSafeToken : (value : Option Value) → IsSafeToken (provider_token value)
unfolding provider_token
provider_token-IsSafeToken (some (Json.text value)) =
    elim (Bool-cases (str_eq value "" || ltb 32 (count value))) [
      | inl e ↦ rw e (inl refl)
      | inr e ↦ elim (Bool-cases (is_token_text value)) [
        | inl t ↦ rw (e, t) (inr (ground arith, t))
        | inr t ↦ rw (e, t) (inl refl)
      ]
    ]
provider_token-IsSafeToken _ = inl refl

last_token-IsSafeToken :
    (last : String) (items : Items) → IsSafeToken last → IsSafeToken (last_token last items)
unfolding last_token
last_token-IsSafeToken last Json.nil h = h
last_token-IsSafeToken last (Json.cons value items) h =
    elim (Bool-cases (str_eq (provider_token (some value)) "")) [
      | inl e ↦ rw e (last_token-IsSafeToken last items h)
      | inr e ↦ rw e (
          last_token-IsSafeToken (provider_token (some value)) items
            (provider_token-IsSafeToken (some value)))
    ]

rate_limit_code_of-IsSafeToken : (value : Option Value) → IsSafeToken (rate_limit_code_of value)
unfolding rate_limit_code_of
rate_limit_code_of-IsSafeToken (some (Json.array codes)) =
    last_token-IsSafeToken "" codes (inl refl)
rate_limit_code_of-IsSafeToken _ = inl refl

-- Whatever an adapter puts into the metadata, the provider code kept of an attempt is empty or at
-- most 32 letters, digits, underscores, dots and dashes.
pub attempt_provider_code-IsSafeToken :
    (metadata : Option (Dict Value)) → IsSafeToken (attempt_provider_code metadata)
unfolding attempt_provider_code
attempt_provider_code-IsSafeToken none = inl refl
attempt_provider_code-IsSafeToken (some metadata) = elim (Bool-cases (is_empty metadata)) [
  | inl e ↦ rw e (inl refl)
  | inr e ↦
      let terminal = provider_token (lookup "agentstorm.provider.error_code" metadata) in
      elim (Bool-cases (str_eq terminal "")) [
        | inl t ↦
            rw (e, t)
              (rate_limit_code_of-IsSafeToken
                (lookup "agentstorm.provider.rate_limit_codes" metadata))
        | inr t ↦
            rw (e, t)
              (provider_token-IsSafeToken (lookup "agentstorm.provider.error_code" metadata))
      ]
]
