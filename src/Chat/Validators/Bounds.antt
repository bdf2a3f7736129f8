-- ===== src/Chat/Validators/Bounds.antt =====
-- openai_compatible.py: what the validators of the target section let through.
use agent_storm.Prelude.{
  guard, ap, ◌∙◌, Bool, and_true, subst, sym, ℕ, ◌≤◌, ◌<◌, String, true, false, ◌||◌, Option, none,
  some, List, [], ◌≡◌, refl, leb, leb→le, le→leb, is_identifier, byte_count, str_eq, str_eq_iff,
  has_text, Bool-cases, inl, inr, arith,
}
use agent_storm.Prelude.Yields.{Yields, Yields-none, Yields-some, Yields-guard, Yields-bind}
use agent_storm.Models.{Value, Fields}
use agent_storm.Models.Json
use agent_storm.Models.Json.{get, number}
use agent_storm.Config.Readers.{Python, int_from, strict_int, at_least}
use agent_storm.Config.Scenario.Rules.{int_from-le}
use agent_storm.Chat.Validators.{
  Url, validate_base_url, validate_pinned_model, is_proper_address, is_root_address, field_count,
  validate_up_to, reserved_request_fields, is_request_field, all_request_fields,
  validate_request_fields, json_value,
}

pub validate_up_to-bounds :
    (maximum : ℕ) (value : Value)
    → Yields (λ n. (1 ≤ n) × (n ≤ maximum)) (validate_up_to maximum value)
unfolding validate_up_to
validate_up_to-bounds maximum value = Yields-bind _ (int_from 1 (some value)) _ λ n e.
    Yields-guard _ (leb n maximum) _
      λ h. Yields-some _ n (int_from-le 1 n (some value) e, leb→le n maximum h)

request_field_allowed :
    (py : Python) (rejected : List String) (key : String) (value : Value)
    → is_request_field py rejected key value ≡ true
    → (has_text key reserved_request_fields ≡ false) × (has_text key rejected ≡ false)
unfolding is_request_field
request_field_allowed py rejected key value h = ground (arith, h)

-- A key that the request sets itself.
abbrev pub IsReserved : List String → String → Type 0
IsReserved rejected key = has_text key reserved_request_fields || has_text key rejected ≡ true

unreserved_apart :
    (rejected : List String) (k key : String)
    → has_text k reserved_request_fields ≡ false
    → has_text k rejected ≡ false
    → IsReserved rejected key
    → str_eq k key ≡ false
unreserved_apart rejected k key free kept r = elim (Bool-cases (str_eq k key)) [
  | inl e ↦
      let same : k ≡ key = (str_eq_iff k key).0 e in
      let wrong : has_text k reserved_request_fields || has_text k rejected ≡ true =
        subst (IsReserved rejected) (sym same) r in
      let no : has_text k reserved_request_fields || has_text k rejected ≡ false =
        rw (free, kept) refl in
      cc
  | inr e ↦ e
]

absent_end : (key : String) → get key Json.end ≡ none
unfolding get
absent_end key = refl

all_request_fields-absent :
    (py : Python) (rejected : List String) (key : String) (fields : Fields)
    → IsReserved rejected key
    → all_request_fields py rejected fields ≡ true
    → get key fields ≡ none
unfolding all_request_fields get
all_request_fields-absent py rejected key Json.end r h = refl
all_request_fields-absent py rejected key (Json.field k v fields) r h =
    let (fits, rest) =
      and_true (is_request_field py rejected k v) (all_request_fields py rejected fields) h in
    let (free, kept) = request_field_allowed py rejected k v fits in
    let apart : str_eq k key ≡ false = unreserved_apart rejected k key free kept r in
    rw apart (all_request_fields-absent py rejected key fields r rest)

-- What is accepted is empty, or has passed the tests.
validate_request_fields_lem :
    (P : Fields → Type 0) (py : Python) (rejected : List String) (value : Option Value)
    → P Json.end
    → ((fields : Fields)
        → field_count fields ≤ 16
        → all_request_fields py rejected fields ≡ true
        → P fields)
    → Yields P (validate_request_fields py rejected value)
unfolding validate_request_fields
validate_request_fields_lem P py rejected none e p = Yields-some _ Json.end e
validate_request_fields_lem P py rejected (some Json.null) e p = Yields-some _ Json.end e
validate_request_fields_lem P py rejected (some (Json.object fields)) e p =
    Yields-guard _ (leb (field_count fields) 16) _ λ few.
      Yields-guard _ (all_request_fields py rejected fields) _
        λ clean. Yields-some P fields (p fields (leb→le (field_count fields) 16 few) clean)
validate_request_fields_lem P py rejected (some (Json.boolean b)) e p = Yields-none _
validate_request_fields_lem P py rejected (some (Json.int n)) e p = Yields-none _
validate_request_fields_lem P py rejected (some (Json.float x)) e p = Yields-none _
validate_request_fields_lem P py rejected (some (Json.text s)) e p = Yields-none _
validate_request_fields_lem P py rejected (some (Json.array xs)) e p = Yields-none _

-- Request fields that are accepted leave alone what the request sets itself, and what the caller
-- names besides.
pub validate_request_fields-absent :
    (py : Python) (rejected : List String) (key : String) (value : Option Value)
    → IsReserved rejected key
    → Yields (λ fields. get key fields ≡ none) (validate_request_fields py rejected value)
validate_request_fields-absent py rejected key value r =
    validate_request_fields_lem (λ fields. get key fields ≡ none) py rejected value (absent_end key)
      (λ fields few clean. all_request_fields-absent py rejected key fields r clean)

-- At most 16 fields, each of which passes the tests.
abbrev pub AreClean : Python → List String → Fields → Type 0
AreClean py rejected fields =
    (field_count fields ≤ 16) × (all_request_fields py rejected fields ≡ true)

pub validate_request_fields-AreClean :
    (py : Python) (rejected : List String) (value : Option Value)
    → Yields (AreClean py rejected) (validate_request_fields py rejected value)
unfolding field_count all_request_fields
validate_request_fields-AreClean py rejected value =
    validate_request_fields_lem (AreClean py rejected) py rejected value (omega arith, refl)
      (λ fields few clean. (few, clean))

request_field_free :
    (py : Python) (rejected : List String) (key : String) (value : Value)
    → is_request_field py rejected key value ≡ true
    → is_request_field py [] key value ≡ true
unfolding is_request_field
request_field_free py rejected key value h = ground (arith, h)

-- Fields that were accepted are accepted where fewer keys are rejected.
pub all_request_fields_free :
    (py : Python) (rejected : List String) (fields : Fields)
    → all_request_fields py rejected fields ≡ true
    → all_request_fields py [] fields ≡ true
unfolding all_request_fields
all_request_fields_free py rejected Json.end h = refl
all_request_fields_free py rejected (Json.field key value fields) h =
    let (fits, rest) =
      and_true (is_request_field py rejected key value) (all_request_fields py rejected fields) h in
    rw
      (
        request_field_free py rejected key value fits,
        all_request_fields_free py rejected fields rest,
      )
      refl

pub max_tokens_accepted :
    (py : Python) (n : ℕ)
    → byte_count (py.dumps (number n)) ≤ 1024
    → is_request_field py [] "max_tokens" (number n) ≡ true
unfolding is_request_field json_value is_identifier byte_count
max_tokens_accepted py n h = rw (le→leb (byte_count (py.dumps (number n))) 1024 h) refl

-- An accepted number is accepted again.
pub validate_up_to_again :
    (maximum n : ℕ) → 1 ≤ n → n ≤ maximum → validate_up_to maximum (number n) ≡ some n
unfolding validate_up_to int_from strict_int at_least
validate_up_to_again maximum n l h = rw (le→leb 1 n l, le→leb n maximum h) refl

pub validate_request_fields_again :
    (py : Python) (rejected : List String) (fields : Fields)
    → AreClean py rejected fields
    → validate_request_fields py rejected (some (Json.object fields)) ≡ some fields
unfolding validate_request_fields
validate_request_fields_again py rejected fields (few, clean) =
    rw (le→leb (field_count fields) 16 few, clean) refl

not_le : (a b : ℕ) → b < a → leb a b ≡ false
not_le a b h = ground (arith, h)

pub validate_request_fields_many :
    (py : Python) (rejected : List String) (fields : Fields)
    → 16 < field_count fields
    → validate_request_fields py rejected (some (Json.object fields)) ≡ none
unfolding validate_request_fields
validate_request_fields_many py rejected fields many = rw (not_le (field_count fields) 16 many) refl

guard-true : (c : Bool) → Yields (λ b. b ≡ true) (guard c)
guard-true true = Yields-some _ true refl
guard-true false = Yields-none _

address_true :
    (urlsplit : String → Option Url) (base_url : String)
    → Yields (λ b. b ≡ true) (validate_base_url urlsplit base_url)
unfolding validate_base_url
address_true urlsplit base_url =
    Yields-bind _ (guard (is_proper_address base_url)) _
      λ proper a. Yields-bind _ (urlsplit base_url) _ λ url b. guard-true (is_root_address url)

-- The only result of the validators of an address and of a model is `true`.
pub validate_base_url-true :
    (urlsplit : String → Option Url) (base_url : String)
    → Yields
        (λ b. validate_base_url urlsplit base_url ≡ some true)
        (validate_base_url urlsplit base_url)
validate_base_url-true urlsplit base_url b h = h ∙ ap some (address_true urlsplit base_url b h)

pub validate_pinned_model-true :
    (model : String)
    → Yields (λ b. validate_pinned_model model ≡ some true) (validate_pinned_model model)
unfolding validate_pinned_model
validate_pinned_model-true model b h = h ∙ ap some (guard-true _ b h)
