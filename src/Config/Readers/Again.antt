-- ===== src/Config/Readers/Again.antt =====
-- config.py: the readers on values that they have read.
use agent_storm.Prelude.{
  ℕ, suc, ◌||◌, Option, none, some, [], ◌∷◌, ◌≡◌, refl, le→leb, ltb, is_blank, byte_count,
  Bool-cases, inl, inr,
}
use agent_storm.Prelude.Yields.{Yields, Yields-none, Yields-some, Yields-guard, Yields-bind}
use agent_storm.Models.{Value, Items}
use agent_storm.Models.Json
use agent_storm.Models.Json.{texts, number, numbers}
use agent_storm.Config.Readers.{
  strict_int, at_least, int_from, unit_ratio, nonempty_string, strings, string_selector, integers,
  integer_selector, ratio, are_unique, are_unique_numbers,
}
use agent_storm.Config.Scenario.Rules.{int_from-le, ratio_bounds}

pub nonempty_string_again :
    (m : ℕ) (value : Option Value)
    → Yields (λ s. nonempty_string m (some (Json.text s)) ≡ some s) (nonempty_string m value)
unfolding nonempty_string
nonempty_string_again m (some (Json.text t)) =
    elim (Bool-cases (is_blank t || ltb m (byte_count t))) [
      | inl e ↦ rw e (Yields-none _)
      | inr e ↦
          rw e (Yields-some (λ s. nonempty_string m (some (Json.text s)) ≡ some s) t rw e refl)
    ]
nonempty_string_again m none = Yields-none _
nonempty_string_again m (some Json.null) = Yields-none _
nonempty_string_again m (some (Json.boolean b)) = Yields-none _
nonempty_string_again m (some (Json.int n)) = Yields-none _
nonempty_string_again m (some (Json.float x)) = Yields-none _
nonempty_string_again m (some (Json.array xs)) = Yields-none _
nonempty_string_again m (some (Json.object fs)) = Yields-none _

pub unit_ratio_again :
    (value : Option Value) → Yields (λ r. unit_ratio (some (ratio r)) ≡ some r) (unit_ratio value)
unfolding unit_ratio
unit_ratio_again value r h = rw (le→leb r.numerator (suc r.over) (ratio_bounds value r h)) refl

pub int_from_again :
    (m : ℕ) (value : Option Value)
    → Yields (λ n. int_from m (some (number n)) ≡ some n) (int_from m value)
unfolding int_from strict_int at_least
int_from_again m value n h = rw (le→leb m n (int_from-le m n value h)) refl

strings_again : (items : Items) → Yields (λ s. strings (texts s) ≡ some s) (strings items)
unfolding strings
strings_again Json.nil = Yields-some _ [] refl
strings_again (Json.cons item items) = Yields-bind _ (nonempty_string 512 (some item)) _ λ s e.
    Yields-bind _ (strings items) _ λ rest f.
      Yields-some (λ l. strings (texts l) ≡ some l) (s ∷ rest)
        (rw (nonempty_string_again 512 (some item) s e, strings_again items rest f) refl)

pub string_selector_again :
    (value : Value)
    → Yields (λ s. string_selector (Json.array (texts s)) ≡ some s) (string_selector value)
unfolding string_selector
string_selector_again (Json.array items) = Yields-bind _ (strings items) _ λ parsed e.
    Yields-guard _ (are_unique parsed) _ λ unique.
      Yields-some (λ s. string_selector (Json.array (texts s)) ≡ some s) parsed
        (rw (strings_again items parsed e, unique) refl)
string_selector_again Json.null = Yields-none _
string_selector_again (Json.boolean b) = Yields-none _
string_selector_again (Json.int n) = Yields-none _
string_selector_again (Json.float x) = Yields-none _
string_selector_again (Json.text s) = Yields-none _
string_selector_again (Json.object fs) = Yields-none _

integers_again :
    (m : ℕ) (items : Items) → Yields (λ l. integers m (numbers l) ≡ some l) (integers m items)
unfolding integers
integers_again m Json.nil = Yields-some _ [] refl
integers_again m (Json.cons item items) = Yields-bind _ (int_from m (some item)) _ λ n e.
    Yields-bind _ (integers m items) _ λ rest f.
      Yields-some (λ l. integers m (numbers l) ≡ some l) (n ∷ rest)
        (rw (int_from_again m (some item) n e, integers_again m items rest f) refl)

pub integer_selector_again :
    (value : Value) (m : ℕ)
    → Yields (λ l. integer_selector (Json.array (numbers l)) m ≡ some l) (integer_selector value m)
unfolding integer_selector
integer_selector_again (Json.array items) m = Yields-bind _ (integers m items) _ λ parsed e.
    Yields-guard _ (are_unique_numbers parsed) _ λ unique.
      Yields-some (λ l. integer_selector (Json.array (numbers l)) m ≡ some l) parsed
        (rw (integers_again m items parsed e, unique) refl)
integer_selector_again Json.null m = Yields-none _
integer_selector_again (Json.boolean b) m = Yields-none _
integer_selector_again (Json.int n) m = Yields-none _
integer_selector_again (Json.float x) m = Yields-none _
integer_selector_again (Json.text s) m = Yields-none _
integer_selector_again (Json.object fs) m = Yields-none _
