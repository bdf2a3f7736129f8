-- ===== src/Evaluators/Prepared.antt =====
-- evaluators.py: the registry that `__init__` builds holds what `_invoke` looks up.
use agent_storm.Prelude.{
  or_false, ℕ, suc, ◌<◌, String, true, false, ◌&&◌, some, List, [], ◌∷◌, ◌≡◌, ◌≢◌, refl, sym, ◌∙◌,
  bind-some, str_eq, str_eq_iff, str_eq_refl, has_text, arith, ◌==◌, ◌⊎◌, inl, inr, subst,
  eq_of_some-eq, Bool-cases, map, All,
}
use agent_storm.Models.{
  AssertionSpec, exact, contains, regex, json_schema, tool_path, latency, python, TestCase,
  effective_assertions,
}
use agent_storm.Config.Readers.{are_unique}
use agent_storm.Evaluators.{
  Libraries, Keyed, find, Registry, plugin, prepare, prepare_case, prepare_all, registry_of,
}

-- Another key.
abbrev Differs : (c : String) (i : ℕ) (c' : String) (i' : ℕ) → Type 0
Differs c i c' i' = str_eq c' c && i' == i ≡ false

find-same :
    {V : Type 0} (c : String) (i : ℕ) (v : V) (d : Keyed V) → find c i ((c, i, v) ∷ d) ≡ some v
unfolding find
find-same c i v d = ground (arith, str_eq_refl c)

find-other :
    {V : Type 0} (c : String) (i : ℕ) (c' : String) (i' : ℕ) (v : V) (d : Keyed V)
    → Differs c i c' i'
    → find c i ((c', i', v) ∷ d) ≡ find c i d
unfolding find
find-other c i c' i' v d h = rw h refl

str_eq-ne : (s t : String) → str_eq s t ≡ false → s ≢ t
str_eq-ne s t h e = ground (arith, e, str_eq_iff s t)

differs : (c : String) (i : ℕ) (c' : String) (i' : ℕ) → (c ≢ c') ⊎ (i < i') → Differs c i c' i'
differs c i c' i' (inl n) = elim (Bool-cases (str_eq c' c)) [
  | inl e ↦ absurd (n (sym ((str_eq_iff c' c).0 e)))
  | inr e ↦ rw e refl
]
differs c i c' i' (inr l) = ground arith

later : (c : String) (i : ℕ) (c' : String) (i' : ℕ) → (c ≢ c') ⊎ (i < i') → (c ≢ c') ⊎ (i < suc i')
later c i c' i' (inl n) = inl n
later c i c' i' (inr l) = inr (omega arith)

unique_cons :
    (s : String) (names : List String)
    → are_unique (s ∷ names) ≡ true
    → (has_text s names ≡ false) × (are_unique names ≡ true)
unique_cons s names h = elim (Bool-cases (has_text s names)) [
  | inl e ↦ let k = rw e at h in cc
  | inr e ↦ (e, rw e at h)
]

module _ {Pattern Validator Function : Type 0}
    (libraries : Libraries Pattern Validator Function) where
  -- What `_invoke` finds is what the libraries make of the assertion.
  abbrev pub Serves : Registry libraries → String → ℕ → AssertionSpec → Type 0
  Serves r c i (regex pattern) =
      (x : Pattern) × (find c i r.regexes ≡ some x) × (libraries.compile pattern ≡ some x)
  Serves r c i (json_schema schema) =
      (x : Validator) × (find c i r.schemas ≡ some x) × (libraries.check_schema schema ≡ some x)
  Serves r c i (python entrypoint config) =
      (x : Function) × (find c i r.functions ≡ some x) × (plugin libraries entrypoint ≡ some x)
  Serves r c i _ = Unit

  -- What two registries have in common under a key.
  record Agree (c : String) (i : ℕ) (r r' : Registry libraries) : Type 0 where
    regexes : find c i r'.regexes ≡ find c i r.regexes
    schemas : find c i r'.schemas ≡ find c i r.schemas
    functions : find c i r'.functions ≡ find c i r.functions

  Agree-refl : (c : String) (i : ℕ) (r : Registry libraries) → Agree c i r r
  Agree-refl c i r = record { regexes = refl; schemas = refl; functions = refl }

  Agree-trans :
      (c : String) (i : ℕ) (r s t : Registry libraries)
      → Agree c i r s
      → Agree c i s t
      → Agree c i r t
  Agree-trans c i r s t a b = record {
    regexes = b.regexes ∙ a.regexes;
    schemas = b.schemas ∙ a.schemas;
    functions = b.functions ∙ a.functions;
  }

  Serves-Agree :
      (c : String) (i : ℕ) (spec : AssertionSpec) (r r' : Registry libraries)
      → Agree c i r r'
      → Serves r c i spec
      → Serves r' c i spec
  Serves-Agree c i (regex pattern) r r' a (x, f, e) = (x, a.regexes ∙ f, e)
  Serves-Agree c i (json_schema schema) r r' a (x, f, e) = (x, a.schemas ∙ f, e)
  Serves-Agree c i (python entrypoint config) r r' a (x, f, e) = (x, a.functions ∙ f, e)
  Serves-Agree c i (exact value) r r' a s = tt
  Serves-Agree c i (contains value) r r' a s = tt
  Serves-Agree c i (tool_path path) r r' a s = tt
  Serves-Agree c i (latency max_ms) r r' a s = tt

  prepare-Serves :
      (c : String) (i : ℕ) (spec : AssertionSpec) (r r' : Registry libraries)
      → prepare libraries c i spec r ≡ some r'
      → Serves r' c i spec
  unfolding prepare
  prepare-Serves c i (regex pattern) r r' h =
      let (x, e, k) = bind-some (libraries.compile pattern) _ r' h in
      (x, subst (λ s. find c i s.regexes ≡ some x) (eq_of_some-eq k) (find-same c i x r.regexes), e)
  prepare-Serves c i (json_schema schema) r r' h =
      let (x, e, k) = bind-some (libraries.check_schema schema) _ r' h in
      (x, subst (λ s. find c i s.schemas ≡ some x) (eq_of_some-eq k) (find-same c i x r.schemas), e)
  prepare-Serves c i (python entrypoint config) r r' h =
      let (x, e, k) = bind-some (plugin libraries entrypoint) _ r' h in
      (
        x,
        subst (λ s. find c i s.functions ≡ some x) (eq_of_some-eq k) (find-same c i x r.functions),
        e,
      )
  prepare-Serves c i (exact value) r r' h = tt
  prepare-Serves c i (contains value) r r' h = tt
  prepare-Serves c i (tool_path path) r r' h = tt
  prepare-Serves c i (latency max_ms) r r' h = tt

  prepare-Agree :
      (c : String) (i : ℕ) (c' : String) (i' : ℕ) (spec : AssertionSpec) (r r' : Registry libraries)
      → Differs c i c' i'
      → prepare libraries c' i' spec r ≡ some r'
      → Agree c i r r'
  unfolding prepare
  prepare-Agree c i c' i' (regex pattern) r r' d h =
      let (x, e, k) = bind-some (libraries.compile pattern) _ r' h in
      subst (Agree c i r) (eq_of_some-eq k)
        (record { regexes = find-other c i c' i' x r.regexes d; schemas = refl; functions = refl })
  prepare-Agree c i c' i' (json_schema schema) r r' d h =
      let (x, e, k) = bind-some (libraries.check_schema schema) _ r' h in
      subst (Agree c i r) (eq_of_some-eq k)
        (record { regexes = refl; schemas = find-other c i c' i' x r.schemas d; functions = refl })
  prepare-Agree c i c' i' (python entrypoint config) r r' d h =
      let (x, e, k) = bind-some (plugin libraries entrypoint) _ r' h in
      subst (Agree c i r) (eq_of_some-eq k) (record {
        regexes = refl;
        schemas = refl;
        functions = find-other c i c' i' x r.functions d;
      })
  prepare-Agree c i c' i' (exact value) r r' d h =
      subst (Agree c i r) (eq_of_some-eq h) (Agree-refl c i r)
  prepare-Agree c i c' i' (contains value) r r' d h =
      subst (Agree c i r) (eq_of_some-eq h) (Agree-refl c i r)
  prepare-Agree c i c' i' (tool_path path) r r' d h =
      subst (Agree c i r) (eq_of_some-eq h) (Agree-refl c i r)
  prepare-Agree c i c' i' (latency max_ms) r r' d h =
      subst (Agree c i r) (eq_of_some-eq h) (Agree-refl c i r)

  -- A case's own earlier keys, and those of other cases, stay as they are.
  prepare_case-Agree :
      (c : String) (i : ℕ) (c' : String) (i' : ℕ) (specs : List AssertionSpec)
      (r r' : Registry libraries)
      → (c ≢ c') ⊎ (i < i')
      → prepare_case libraries c' i' specs r ≡ some r'
      → Agree c i r r'
  unfolding prepare_case
  prepare_case-Agree c i c' i' [] r r' apart h =
      subst (Agree c i r) (eq_of_some-eq h) (Agree-refl c i r)
  prepare_case-Agree c i c' i' (spec ∷ specs) r r' apart h =
      let (s, e, k) = bind-some (prepare libraries c' i' spec r) _ r' h in
      Agree-trans c i r s r' (prepare-Agree c i c' i' spec r s (differs c i c' i' apart) e)
        (prepare_case-Agree c i c' (suc i') specs s r' (later c i c' i' apart) k)

  -- The assertions from an index on.
  abbrev pub ServesFrom : Registry libraries → String → ℕ → List AssertionSpec → Type 0
  ServesFrom r c i [] = Unit
  ServesFrom r c i (spec ∷ specs) = Serves r c i spec × ServesFrom r c (suc i) specs

  ServesFrom-Agree :
      (c : String) (i : ℕ) (specs : List AssertionSpec) (r r' : Registry libraries)
      → ((j : ℕ) → Agree c j r r')
      → ServesFrom r c i specs
      → ServesFrom r' c i specs
  ServesFrom-Agree c i [] r r' a s = tt
  ServesFrom-Agree c i (spec ∷ specs) r r' a (s, rest) =
      (Serves-Agree c i spec r r' (a i) s, ServesFrom-Agree c (suc i) specs r r' a rest)

  prepare_case-ServesFrom :
      (c : String) (i : ℕ) (specs : List AssertionSpec) (r r' : Registry libraries)
      → prepare_case libraries c i specs r ≡ some r'
      → ServesFrom r' c i specs
  unfolding prepare_case
  prepare_case-ServesFrom c i [] r r' h = tt
  prepare_case-ServesFrom c i (spec ∷ specs) r r' h =
      let (s, e, k) = bind-some (prepare libraries c i spec r) _ r' h in
      (
        Serves-Agree c i spec s r'
            (prepare_case-Agree c i c (suc i) specs s r' (inr (omega arith)) k)
            (prepare-Serves c i spec r s e),
        prepare_case-ServesFrom c (suc i) specs s r' k,
      )

  prepare_all-Agree :
      (c : String) (i : ℕ) (cases : List TestCase) (r r' : Registry libraries)
      → has_text c (map (λ t. t.case_id) cases) ≡ false
      → prepare_all libraries cases r ≡ some r'
      → Agree c i r r'
  unfolding prepare_all
  prepare_all-Agree c i [] r r' d h = subst (Agree c i r) (eq_of_some-eq h) (Agree-refl c i r)
  prepare_all-Agree c i (t ∷ cases) r r' d h =
      let (s, e, k) =
        bind-some (prepare_case libraries t.case_id 0 (effective_assertions t) r) _ r' h in
      let (first, others) = or_false (str_eq c t.case_id) _ d in
      Agree-trans c i r s r'
        (prepare_case-Agree c i t.case_id 0 (effective_assertions t) r s
          (inl (str_eq-ne c t.case_id first)) e)
        (prepare_all-Agree c i cases s r' others k)

  prepare_all-Serves :
      (cases : List TestCase) (r r' : Registry libraries)
      → are_unique (map (λ t. t.case_id) cases) ≡ true
      → prepare_all libraries cases r ≡ some r'
      → All (λ t. ServesFrom r' t.case_id 0 (effective_assertions t)) cases
  unfolding prepare_all
  prepare_all-Serves [] r r' u h = tt
  prepare_all-Serves (t ∷ cases) r r' u h =
      let (s, e, k) =
        bind-some (prepare_case libraries t.case_id 0 (effective_assertions t) r) _ r' h in
      let (fresh, rest) = unique_cons t.case_id (map (λ t. t.case_id) cases) u in
      (
        ServesFrom-Agree t.case_id 0 (effective_assertions t) s r'
            (λ j. prepare_all-Agree t.case_id j cases s r' fresh k)
            (prepare_case-ServesFrom t.case_id 0 (effective_assertions t) r s e),
        prepare_all-Serves cases s r' rest k,
      )

  -- Where the ids of the cases are distinct, the registry serves each assertion of each case.
  pub registry_of-Serves :
      (cases : List TestCase) (r : Registry libraries)
      → are_unique (map (λ t. t.case_id) cases) ≡ true
      → registry_of libraries cases ≡ some r
      → All (λ t. ServesFrom r t.case_id 0 (effective_assertions t)) cases
  unfolding registry_of
  registry_of-Serves cases r u h = prepare_all-Serves cases _ r u h
