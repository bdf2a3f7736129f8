-- ===== src/Config/Dataset/Accepted.antt =====
-- config.py: what an accepted dataset satisfies.
use agent_storm.Prelude.{
  or_false, not-true, ℕ, suc, ◌<◌, String, Bool, true, false, not, Option, none, some, List, [],
  ◌∷◌, ◌≡◌, refl, eq_of_some-eq, str_eq, str_eq_iff, concat, decimal, has_text, is_blank, is_empty,
  Bool-cases, inl, inr, map, arith, All,
}
use agent_storm.Config.Dataset.Specs.{IsSpec, assertions_of-All}
use agent_storm.Prelude.Yields.{Yields, Yields-none, Yields-some, Yields-guard, Yields-bind}
use agent_storm.Prelude.Int.{pos, negsuc}
use agent_storm.Models.{Value, TestCase}
use agent_storm.Models.Json
use agent_storm.Models.Json.{get}
use agent_storm.Config.Readers.{are_unique, Python, text_or}
use agent_storm.Config.Dataset.{
  assertions_of, prompt_of, fields_in, case_of, unless_blank, after_line, read_line, load_lines,
  load_dataset,
}

abbrev IsPositive : Json.Float → Type 0
IsPositive (Json.finite (pos n) over) = 0 < n
IsPositive (Json.finite (negsuc n) over) = ⊥
IsPositive (Json.infinite positive) = positive ≡ true
IsPositive Json.nan = Unit

pub record IsCase (test : TestCase) : Type 0 where
  pub prompted : is_blank test.prompt ≡ false
  pub specs : All IsSpec test.assertions

prompt_of-prompted : (value : Option Value) → Yields (λ s. is_blank s ≡ false) (prompt_of value)
unfolding prompt_of
prompt_of-prompted (some (Json.text s)) = elim (Bool-cases (is_blank s)) [
  | inl e ↦ rw e (Yields-none _)
  | inr e ↦ rw e (Yields-some (λ t. is_blank t ≡ false) s e)
]
prompt_of-prompted none = Yields-none _
prompt_of-prompted (some Json.null) = Yields-none _
prompt_of-prompted (some (Json.boolean b)) = Yields-none _
prompt_of-prompted (some (Json.int n)) = Yields-none _
prompt_of-prompted (some (Json.float x)) = Yields-none _
prompt_of-prompted (some (Json.array xs)) = Yields-none _
prompt_of-prompted (some (Json.object fs)) = Yields-none _

-- Every case is new to those before it.
abbrev Fresh : List String → TestCase → Type 0
Fresh seen test = has_text test.case_id seen ≡ false

str_eq-sym : (s t : String) → str_eq s t ≡ false → str_eq t s ≡ false
str_eq-sym s t h = ground (arith, str_eq_iff s t, str_eq_iff t s)

unless_blank-inverse :
    (b : Bool) (read : Option TestCase) (test : TestCase)
    → unless_blank b read ≡ some (some test)
    → read ≡ some test
unfolding unless_blank
unless_blank-inverse true read test h = cc
unless_blank-inverse false none test h = cc
unless_blank-inverse false (some t) test h = eq_of_some-eq h

module _ (py : Python) where
  case_of-IsCase :
      (line_number : ℕ) (seen : List String) (raw : Value)
      → Yields (λ test. IsCase test × Fresh seen test) (case_of py line_number seen raw)
  unfolding case_of
  case_of-IsCase line_number seen raw = Yields-bind _ (fields_in raw) _ λ fields e.
      Yields-bind _ (prompt_of (get "input" fields)) _ λ prompt f.
        Yields-guard _
          (not
            (has_text (text_or py (concat "case-" (decimal line_number)) (get "id" fields)) seen))
          _
          λ fresh. Yields-bind _ (assertions_of (get "assertions" fields)) _ λ specs g.
            Yields-some (λ test. IsCase test × Fresh seen test) _
              (
                record {
                  prompted = prompt_of-prompted (get "input" fields) prompt f;
                  specs = assertions_of-All (get "assertions" fields) specs g;
                },
                not-true _ fresh,
              )

  -- A name that differs from all those seen and from `s`.
  Fresh-apart :
      (s : String) (seen : List String) (cases : List TestCase)
      → All (Fresh (s ∷ seen)) cases
      → (has_text s (map (λ t. t.case_id) cases) ≡ false) × All (Fresh seen) cases
  Fresh-apart s seen [] a = (refl, tt)
  Fresh-apart s seen (t ∷ cases) (f, a) =
      let (ne, unseen) = or_false (str_eq t.case_id s) (has_text t.case_id seen) f in
      let (rest, all) = Fresh-apart s seen cases a in
      (rw (str_eq-sym t.case_id s ne) rest, (unseen, all))

  -- What the rest of the lines may hold after the names seen.
  abbrev IsRest : List String → List TestCase → Type 0
  IsRest seen cases =
      All IsCase cases × (are_unique (map (λ t. t.case_id) cases) ≡ true) × All (Fresh seen) cases

  after_line-IsValid :
      (seen : List String) (o : Option (Option TestCase)) (skipped : Option (List TestCase))
      (continued : TestCase → Option (List TestCase))
      → ((test : TestCase) → o ≡ some (some test) → IsCase test × Fresh seen test)
      → Yields (IsRest seen) skipped
      → ((test : TestCase) → Yields (IsRest (test.case_id ∷ seen)) (continued test))
      → Yields (IsRest seen) (after_line o skipped continued)
  unfolding after_line
  after_line-IsValid seen none skipped continued p q r = Yields-none _
  after_line-IsValid seen (some none) skipped continued p q r = q
  after_line-IsValid seen (some (some test)) skipped continued p q r =
      Yields-bind (IsRest seen) (continued test) _ λ rest e.
        let (valid, fresh) = p test refl in
        let (all, unique, apart) = r test rest e in
        let (new, unseen) = Fresh-apart test.case_id seen rest apart in
        Yields-some (IsRest seen) (test ∷ rest)
          ((valid, all), rw (new, unique) refl, (fresh, unseen))

  read_line-IsCase :
      (line_number : ℕ) (seen : List String) (line : String) (test : TestCase)
      → read_line py line_number seen line ≡ some (some test)
      → IsCase test × Fresh seen test
  unfolding read_line
  read_line-IsCase line_number seen line test h =
      Yields-bind (λ t. IsCase t × Fresh seen t) (py.loads line) _
        (λ raw e. case_of-IsCase line_number seen raw) test
        (unless_blank-inverse (is_blank line) _ test h)

  load_lines-IsValid :
      (line_number : ℕ) (seen lines : List String)
      → Yields (IsRest seen) (load_lines py line_number seen lines)
  unfolding load_lines read_line
  load_lines-IsValid line_number seen [] = Yields-some _ [] (tt, refl, tt)
  load_lines-IsValid line_number seen (line ∷ lines) =
      after_line-IsValid seen (read_line py line_number seen line) _ _
        (read_line-IsCase line_number seen line) (load_lines-IsValid (suc line_number) seen lines)
        (λ test. load_lines-IsValid (suc line_number) (test.case_id ∷ seen) lines)

  -- An accepted dataset has a case; the ids of its cases are distinct; no prompt is blank; and every
  -- assertion is as the evaluators want it: a tool path of non-empty names, a latency limit that is
  -- positive or NaN, an entrypoint with one colon between two names.
  pub load_dataset-IsValid :
      (lines : List String) (cases : List TestCase)
      → load_dataset py lines ≡ some cases
      → (is_empty cases ≡ false)
        × (are_unique (map (λ t. t.case_id) cases) ≡ true)
        × All IsCase cases
  unfolding load_dataset
  load_dataset-IsValid lines = Yields-bind _ (load_lines py 1 [] lines) _ λ cases e.
      Yields-guard _ (not (is_empty cases)) _ λ h.
        let (valid, unique, fresh) = load_lines-IsValid 1 [] lines cases e in
        Yields-some _ cases (not-true (is_empty cases) h, unique, valid)
