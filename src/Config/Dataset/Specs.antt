-- ===== src/Config/Dataset/Specs.antt =====
-- config.py: what an accepted assertion satisfies.
use agent_storm.Prelude.{
  not-true, ◌<◌, String, Bool, true, false, not, Option, none, some, [], ◌∷◌, ◌≡◌, refl, ◌>>=◌,
  guard, ltb, ltb→lt, str_eq, split_colon, count_colons, ◌==◌, ==→eq, arith, All,
}
use agent_storm.Prelude.Yields.{
  Yields, Yields-none, Yields-some, Yields-if, Yields-guard, Yields-bind,
}
use agent_storm.Prelude.Int.{pos, negsuc}
use agent_storm.Models.{
  Value, Items, Fields, AssertionSpec, exact, contains, regex, json_schema, tool_path, latency,
  python,
}
use agent_storm.Models.Json
use agent_storm.Models.Json.{get}
use agent_storm.Config.Readers.{only_keys, get_or}
use agent_storm.Config.Dataset.{
  both_parts, any_text, config_of, entrypoint_of, positive_number, nonempty_texts, path_of,
  exact_spec, contains_spec, regex_spec, schema_spec, path_spec, latency_spec, python_spec,
  typed_spec, spec_of, specs_of, assertions_of,
}

abbrev IsPositive : Json.Float → Type 0
IsPositive (Json.finite (pos n) over) = 0 < n
IsPositive (Json.finite (negsuc n) over) = ⊥
IsPositive (Json.infinite positive) = positive ≡ true
IsPositive Json.nan = Unit

-- A text that splits at its one colon into two parts.
abbrev IsEntrypoint : String → Type 0
IsEntrypoint s =
    (count_colons s ≡ 1)
    × ((parts : String × String) × (split_colon s ≡ some parts)
        × (str_eq parts.0 "" ≡ false)
        × (str_eq parts.1 "" ≡ false))

-- What the evaluators rely on in a specification.
abbrev pub IsSpec : AssertionSpec → Type 0
IsSpec (tool_path path) = All (λ s. str_eq s "" ≡ false) path
IsSpec (latency max_ms) = IsPositive max_ms
IsSpec (python entrypoint config) = IsEntrypoint entrypoint
IsSpec _ = Unit

nonempty_texts-All :
    (items : Items) → Yields (All (λ s. str_eq s "" ≡ false)) (nonempty_texts items)
unfolding nonempty_texts
nonempty_texts-All Json.nil = Yields-some _ [] tt
nonempty_texts-All (Json.cons (Json.text s) items) = Yields-guard _ (not (str_eq s "")) _ λ present.
    Yields-bind _ (nonempty_texts items) _ λ rest e.
      Yields-some _ (s ∷ rest) (not-true (str_eq s "") present, nonempty_texts-All items rest e)
nonempty_texts-All (Json.cons Json.null items) = Yields-none _
nonempty_texts-All (Json.cons (Json.boolean b) items) = Yields-none _
nonempty_texts-All (Json.cons (Json.int n) items) = Yields-none _
nonempty_texts-All (Json.cons (Json.float x) items) = Yields-none _
nonempty_texts-All (Json.cons (Json.array xs) items) = Yields-none _
nonempty_texts-All (Json.cons (Json.object fs) items) = Yields-none _

positive_number-IsPositive : (value : Option Value) → Yields IsPositive (positive_number value)
unfolding positive_number
positive_number-IsPositive (some (Json.int (pos n))) =
    Yields-guard _ (ltb 0 n) _ λ h. Yields-some IsPositive (Json.finite (pos n) 0) (ltb→lt 0 n h)
positive_number-IsPositive (some (Json.float (Json.finite (pos n) over))) =
    Yields-guard _ (ltb 0 n) _ λ h. Yields-some IsPositive (Json.finite (pos n) over) (ltb→lt 0 n h)
positive_number-IsPositive (some (Json.float (Json.infinite true))) =
    Yields-some IsPositive (Json.infinite true) refl
positive_number-IsPositive (some (Json.float Json.nan)) = Yields-some IsPositive Json.nan tt
positive_number-IsPositive (some (Json.float (Json.infinite false))) = Yields-none _
positive_number-IsPositive (some (Json.float (Json.finite (negsuc n) over))) = Yields-none _
positive_number-IsPositive (some (Json.int (negsuc n))) = Yields-none _
positive_number-IsPositive none = Yields-none _
positive_number-IsPositive (some Json.null) = Yields-none _
positive_number-IsPositive (some (Json.boolean b)) = Yields-none _
positive_number-IsPositive (some (Json.text s)) = Yields-none _
positive_number-IsPositive (some (Json.array xs)) = Yields-none _
positive_number-IsPositive (some (Json.object fs)) = Yields-none _

both_parts-some :
    (o : Option (String × String))
    → both_parts o ≡ true
    → (parts : String × String) × (o ≡ some parts)
      × (str_eq parts.0 "" ≡ false)
      × (str_eq parts.1 "" ≡ false)
unfolding both_parts
both_parts-some none h = cc
both_parts-some (some (before, after)) h =
    ((before, after), refl, ground (arith, h), ground (arith, h))

entrypoint_of-IsEntrypoint : (value : Option Value) → Yields IsEntrypoint (entrypoint_of value)
unfolding entrypoint_of
entrypoint_of-IsEntrypoint (some (Json.text s)) = Yields-guard _ (count_colons s == 1) _ λ one.
    Yields-guard _ (both_parts (split_colon s)) _
      λ whole. Yields-some IsEntrypoint s (==→eq _ _ one, both_parts-some (split_colon s) whole)
entrypoint_of-IsEntrypoint none = Yields-none _
entrypoint_of-IsEntrypoint (some Json.null) = Yields-none _
entrypoint_of-IsEntrypoint (some (Json.boolean b)) = Yields-none _
entrypoint_of-IsEntrypoint (some (Json.int n)) = Yields-none _
entrypoint_of-IsEntrypoint (some (Json.float x)) = Yields-none _
entrypoint_of-IsEntrypoint (some (Json.array xs)) = Yields-none _
entrypoint_of-IsEntrypoint (some (Json.object fs)) = Yields-none _

path_of-All : (value : Option Value) → Yields (All (λ s. str_eq s "" ≡ false)) (path_of value)
unfolding path_of
path_of-All (some (Json.array items)) = nonempty_texts-All items
path_of-All none = Yields-none _
path_of-All (some Json.null) = Yields-none _
path_of-All (some (Json.boolean b)) = Yields-none _
path_of-All (some (Json.int n)) = Yields-none _
path_of-All (some (Json.float x)) = Yields-none _
path_of-All (some (Json.text s)) = Yields-none _
path_of-All (some (Json.object fs)) = Yields-none _

-- A specification that asks nothing of a text or a value.
plain-IsSpec {ℓ} :
    {A : Type ℓ} (b : Bool) (m : Option A) (make : A → AssertionSpec)
    → ((a : A) → IsSpec (make a))
    → Yields IsSpec (guard b >>= λ known. m >>= λ a. some (make a))
plain-IsSpec b m make p =
    Yields-guard IsSpec b _ λ known. Yields-bind IsSpec m _ λ a e. Yields-some IsSpec (make a) (p a)

latency_spec-IsSpec : (fields : Fields) → Yields IsSpec (latency_spec fields)
unfolding latency_spec
latency_spec-IsSpec fields =
    Yields-guard IsSpec (only_keys fields ("type" ∷ "max_ms" ∷ [])) _ λ known.
      Yields-bind IsSpec (positive_number (get "max_ms" fields)) _
        λ m e. Yields-some IsSpec (latency m) (positive_number-IsPositive (get "max_ms" fields) m e)

path_spec-IsSpec : (fields : Fields) → Yields IsSpec (path_spec fields)
unfolding path_spec
path_spec-IsSpec fields = Yields-guard IsSpec (only_keys fields ("type" ∷ "path" ∷ [])) _ λ known.
    Yields-bind IsSpec (path_of (get "path" fields)) _
      λ path e. Yields-some IsSpec (tool_path path) (path_of-All (get "path" fields) path e)

python_spec-IsSpec : (fields : Fields) → Yields IsSpec (python_spec fields)
unfolding python_spec
python_spec-IsSpec fields =
    Yields-guard IsSpec (only_keys fields ("type" ∷ "entrypoint" ∷ "config" ∷ [])) _ λ known.
      Yields-bind IsSpec (entrypoint_of (get "entrypoint" fields)) _ λ s e.
        Yields-bind IsSpec (config_of (get_or "config" (Json.object Json.end) fields)) _ λ config f.
          Yields-some IsSpec (python s config)
            (entrypoint_of-IsEntrypoint (get "entrypoint" fields) s e)

typed_spec-IsSpec : (kind : String) (fields : Fields) → Yields IsSpec (typed_spec kind fields)
unfolding typed_spec exact_spec contains_spec regex_spec schema_spec
typed_spec-IsSpec kind fields =
    Yields-if IsSpec (str_eq kind "exact") _ _ (λ h. plain-IsSpec _ _ exact (λ a. tt))
      (Yields-if IsSpec (str_eq kind "contains") _ _ (λ h. plain-IsSpec _ _ contains (λ a. tt))
        (Yields-if IsSpec (str_eq kind "regex") _ _ (λ h. plain-IsSpec _ _ regex (λ a. tt))
          (Yields-if IsSpec (str_eq kind "json_schema") _ _
            (λ h. plain-IsSpec _ _ json_schema (λ a. tt))
            (Yields-if IsSpec (str_eq kind "tool_path") _ _ (λ h. path_spec-IsSpec fields)
              (Yields-if IsSpec (str_eq kind "latency") _ _ (λ h. latency_spec-IsSpec fields)
                (Yields-if IsSpec (str_eq kind "python") _ _ (λ h. python_spec-IsSpec fields)
                  (Yields-none IsSpec)))))))

spec_of-IsSpec : (value : Value) → Yields IsSpec (spec_of value)
unfolding spec_of
spec_of-IsSpec (Json.object fields) =
    Yields-bind IsSpec (any_text (get "type" fields)) _ λ kind e. typed_spec-IsSpec kind fields
spec_of-IsSpec Json.null = Yields-none _
spec_of-IsSpec (Json.boolean b) = Yields-none _
spec_of-IsSpec (Json.int n) = Yields-none _
spec_of-IsSpec (Json.float x) = Yields-none _
spec_of-IsSpec (Json.text s) = Yields-none _
spec_of-IsSpec (Json.array xs) = Yields-none _

specs_of-All : (items : Items) → Yields (All IsSpec) (specs_of items)
unfolding specs_of
specs_of-All Json.nil = Yields-some _ [] tt
specs_of-All (Json.cons item items) = Yields-bind _ (spec_of item) _ λ spec e.
    Yields-bind _ (specs_of items) _ λ rest f.
      Yields-some (All IsSpec) (spec ∷ rest) (spec_of-IsSpec item spec e, specs_of-All items rest f)

pub assertions_of-All : (value : Option Value) → Yields (All IsSpec) (assertions_of value)
unfolding assertions_of
assertions_of-All none = Yields-some _ [] tt
assertions_of-All (some Json.null) = Yields-some _ [] tt
assertions_of-All (some (Json.array items)) = specs_of-All items
assertions_of-All (some (Json.boolean b)) = Yields-none _
assertions_of-All (some (Json.int n)) = Yields-none _
assertions_of-All (some (Json.float x)) = Yields-none _
assertions_of-All (some (Json.text s)) = Yields-none _
assertions_of-All (some (Json.object fs)) = Yields-none _
