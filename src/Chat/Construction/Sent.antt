-- ===== src/Chat/Construction/Sent.antt =====
-- adapters/__init__.py: the request fields, tries and waits that a target gives the client.
use agent_storm.Prelude.{
  ℕ, suc, ◌*◌, ◌/◌, ◌≤◌, String, true, Option, none, some, [], ◌≡◌, refl, ap, le→leb, if◌then◌else◌,
  str_eq, str_eq_iff, is_some, byte_count, arith, Bool-cases, inl, inr, and_true,
}
use agent_storm.Prelude.Int.{pos}
use agent_storm.Models.{Value, Fields}
use agent_storm.Models.Json
use agent_storm.Models.Json.{get, number}
use agent_storm.Config.Readers.{Python}
use agent_storm.Config.Run.Sections.{IfGiven, target_keys}
use agent_storm.Chat.Completion.{output_allowance}
use agent_storm.Chat.Validators.{
  validate_max_output_tokens, validate_http_retry_attempts, validate_http_retry_max_wait_seconds,
  field_count, is_request_field, all_request_fields,
}
use agent_storm.Chat.Validators.Bounds.{
  AreClean, all_request_fields_free, max_tokens_accepted, validate_up_to_again,
}
use agent_storm.Chat.Construction.{waits, set_field, with_max_tokens, tries_of, longest_wait}

get-set_field :
    (key : String) (value : Value) (fields : Fields)
    → get key (set_field key value fields) ≡ some value
unfolding get set_field
get-set_field key value Json.end =
    let same : str_eq key key ≡ true = (str_eq_iff key key).1 refl in rw same refl
get-set_field key value (Json.field k v fields) = elim (Bool-cases (str_eq k key)) [
  | inl e ↦ rw (e, e) refl
  | inr e ↦ rw (e, e) (get-set_field key value fields)
]

-- A new key is one more.
field_count-set_field :
    (key : String) (value : Value) (fields : Fields)
    → get key fields ≡ none
    → field_count (set_field key value fields) ≡ suc (field_count fields)
unfolding get set_field field_count
field_count-set_field key value Json.end h = refl
field_count-set_field key value (Json.field k v fields) h = elim (Bool-cases (str_eq k key)) [
  | inl e ↦ let t = rw e at h in cc
  | inr e ↦ let t = rw e at h in rw e (ap suc (field_count-set_field key value fields t))
]

all_request_fields-set_field :
    (py : Python) (key : String) (value : Value) (fields : Fields)
    → is_request_field py [] key value ≡ true
    → all_request_fields py [] fields ≡ true
    → all_request_fields py [] (set_field key value fields) ≡ true
unfolding set_field all_request_fields
all_request_fields-set_field py key value Json.end v h = rw v refl
all_request_fields-set_field py key value (Json.field k w fields) v h =
    let (first, rest) = and_true (is_request_field py [] k w) (all_request_fields py [] fields) h in
    elim (Bool-cases (str_eq k key)) [
      | inl e ↦ let same : k ≡ key = (str_eq_iff k key).0 e in rw (e, same, v, rest) refl
      | inr e ↦ rw (e, first) (all_request_fields-set_field py key value fields v rest)
    ]

-- The output tokens that a call without usage is charged.
abbrev pub charged_output : Option ℕ → ℕ
charged_output none = 8192
charged_output (some n) = n

-- The fields that are sent with a limit of the output.
pub record IsSent (py : Python) (limit : Option ℕ) (before after : Fields) : Type 0 where
  pub made : with_max_tokens limit before ≡ some after
  pub clean : all_request_fields py [] after ≡ true
  pub size :
      field_count after ≡ (if is_some limit then suc (field_count before) else field_count before)
  pub allowance : output_allowance after ≡ charged_output limit

pub sent :
    (py : Python) (limit : Option ℕ) (fields : Fields)
    → ((n : ℕ) → n ≤ 131_072 → byte_count (py.dumps (number n)) ≤ 1024)
    → IfGiven (λ n. (1 ≤ n) × (n ≤ 131_072)) limit
    → AreClean py target_keys fields
    → get "max_tokens" fields ≡ none
    → (after : Fields) × IsSent py limit fields after
unfolding with_max_tokens output_allowance validate_max_output_tokens
sent py none fields d l c a = (
  fields,
  record {
    made = refl;
    clean = all_request_fields_free py target_keys fields c.1;
    size = refl;
    allowance = rw (output_allowance, a) refl;
  },
)
sent py (some n) fields d (low, high) c a =
    let whole = all_request_fields_free py target_keys fields c.1 in
    let fits = max_tokens_accepted py n (d n high) in
    (
      set_field "max_tokens" (number n) fields,
      record {
        made = rw (validate_up_to_again 131_072 n low high) refl;
        clean = all_request_fields-set_field py "max_tokens" (number n) fields fits whole;
        size = field_count-set_field "max_tokens" (number n) fields a;
        allowance =
            rw (output_allowance, get-set_field "max_tokens" (number n) fields)
              (ground (arith, low));
      },
    )

pub tried :
    (o : Option ℕ)
    → IfGiven (λ n. (1 ≤ n) × (n ≤ 16)) o
    → (k : ℕ) × (tries_of o ≡ some (number k)) × (1 ≤ k) × (k ≤ 16)
unfolding tries_of validate_http_retry_attempts
tried none h = (3, refl, omega arith, omega arith)
tried (some n) (low, high) = (n, rw (validate_up_to_again 16 n low high) refl, low, high)

pub waited :
    (o : Option ℕ)
    → IfGiven (λ n. (1 ≤ n) × (n ≤ 300)) o
    → (s : ℕ) × (longest_wait o ≡ some (pos s, 0)) × (1 ≤ s) × (s ≤ 300)
unfolding longest_wait validate_http_retry_max_wait_seconds
waited none h = (8, refl, omega arith, omega arith)
waited (some n) (low, high) = (n, rw (validate_up_to_again 300 n low high) refl, low, high)

pub waits_within :
    (s : ℕ)
    → 1 ≤ s
    → s ≤ 300
    → waits (pos 1, 1) (pos s, 0) ≡ some (500_000_000, s * 1_000_000_000 / 1)
unfolding waits
waits_within s low high = rw (le→leb 1 (s * 2) (omega (arith, low)), le→leb s 300 high) refl
