-- ===== src/Evaluators/Verdicts.antt =====
-- evaluators.py: what the outcomes of a case say of its output.
use agent_storm.Prelude.{
  and_true, ℕ, suc, String, true, false, Option, none, some, List, [], ◌∷◌, ◌≡◌, refl, sym, ◌∙◌,
  subst, eq_of_some-eq, ap₂, ◌↔◌, str_eq, str_eq_iff, is_part, map, All, arith,
}
use agent_storm.Models.{
  Value, AssertionSpec, exact, contains, regex, json_schema, tool_path, latency, python,
  AssertionOutcome, TestCase, effective_assertions,
}
use agent_storm.Config.Readers.{are_unique}
use agent_storm.Evaluators.{
  returned, raised, Loaded, decoded, not_json, loads_raised, valid, violation, validate_raised,
  Libraries, EvaluationContext, to_dict, texts_eq, is_within, verdict, plugin, schema_verdict,
  regex_verdict, python_verdict, invoke_with, invoke, Registry, registry_of, type_of, evaluate_one,
  evaluate_from, evaluate,
}
use agent_storm.Evaluators.Prepared.{Serves, ServesFrom, registry_of-Serves}
use agent_storm.Evaluators.Answers.{
  Approves, Says, outcome_of-index, outcome_of-type, Says-raised, Says-verdict, Says-plugin,
  Says-iff,
}

parts :
    (x y : String) (xs ys : List String)
    → ◌≡◌ {A = List String} (x ∷ xs) (y ∷ ys)
    → (x ≡ y) × (xs ≡ ys)
parts x y xs ys h = (cc, cc)

texts_eq_iff : (xs ys : List String) → (texts_eq xs ys ≡ true) ↔ (xs ≡ ys)
unfolding texts_eq
texts_eq_iff [] [] = (λ h. refl, λ h. refl)
texts_eq_iff [] (y ∷ ys) = (λ h. cc, λ h. cc)
texts_eq_iff (x ∷ xs) [] = (λ h. cc, λ h. cc)
texts_eq_iff (x ∷ xs) (y ∷ ys) = (
  λ h.
      let (first, rest) = and_true (str_eq x y) (texts_eq xs ys) h in
      ap₂ ◌∷◌ ((str_eq_iff x y).0 first) ((texts_eq_iff xs ys).0 rest),
  λ h.
      let (a, b) = parts x y xs ys h in
      ground (arith, (str_eq_iff x y).1 a, (texts_eq_iff xs ys).1 b),
)

same : {A : Type 0} {o : Option A} {x y : A} → o ≡ some y → o ≡ some x → y ≡ x
same d e = eq_of_some-eq (sym d ∙ e)

module _ {Pattern Validator Function : Type 0}
    (libraries : Libraries Pattern Validator Function) where
  -- What an assertion asks of the case.
  abbrev pub Meets : AssertionSpec → EvaluationContext → Type 0
  Meets (exact value) context = context.output ≡ value
  Meets (contains value) context = is_part value context.output ≡ true
  Meets (regex pattern) context =
      (compiled : Pattern) × (libraries.compile pattern ≡ some compiled)
      × (libraries.search compiled context.output ≡ true)
  Meets (json_schema schema) context =
      (validator : Validator) × (value : Value) × (libraries.check_schema schema ≡ some validator)
      × (libraries.loads context.output ≡ decoded value)
      × (libraries.validate validator value ≡ valid)
  Meets (tool_path path) context = context.tool_path ≡ path
  Meets (latency max_ms) context = is_within context.latency max_ms ≡ true
  Meets (python entrypoint config) context =
      (function : Function) × (plugin libraries entrypoint ≡ some function)
      × Approves (libraries.call function (to_dict context) config)

  -- The outcome of an assertion: its place and type, and the verdict with the reason that fits.
  pub record IsVerdict (context : EvaluationContext) (place : ℕ) (spec : AssertionSpec)
      (outcome : AssertionOutcome) : Type 0 where
    pub index : outcome.index ≡ place
    pub type : outcome.type ≡ type_of spec
    pub reason : (outcome.passed ≡ true) ↔ (outcome.reason_code ≡ "passed")
    pub meets : (outcome.passed ≡ true) ↔ Meets spec context

  abbrev pub AreVerdicts :
      EvaluationContext → ℕ → List AssertionSpec → List AssertionOutcome → Type 0
  AreVerdicts context index [] [] = Unit
  AreVerdicts context index (spec ∷ specs) (outcome ∷ outcomes) =
      IsVerdict context index spec outcome × AreVerdicts context (suc index) specs outcomes
  AreVerdicts context index _ _ = ⊥

module _ {Pattern Validator Function : Type 0}
    (libraries : Libraries Pattern Validator Function) where
  -- The schema check of a value that was loaded, or not.
  Says-schema :
      (loaded : Loaded) (validator : Validator) (missing : String)
      → Says
          ((value : Value) × (loaded ≡ decoded value)
            × (libraries.validate validator value ≡ valid))
          (schema_verdict libraries loaded (some validator) missing)
  unfolding schema_verdict
  Says-schema (not_json message) validator missing =
      Says-verdict _ false "invalid_json" (some message) refl (λ h. cc, λ (v, e, k). cc)
  Says-schema (loads_raised text) validator missing = Says-raised _ text (λ (v, e, k). cc)
  Says-schema (decoded value) validator missing =
      elim (libraries.validate validator value)
          as (λ answer.
            libraries.validate validator value ≡ answer
            → Says
                ((w : Value) × (decoded value ≡ decoded w)
                  × (libraries.validate validator w ≡ valid))
                (elim answer [
                  | valid ↦ returned (verdict true "schema_violation" none)
                  | violation message ↦ returned (verdict false "schema_violation" (some message))
                  | validate_raised text ↦ raised text
                ])) [
                  | valid ↦ λ e.
                      Says-verdict _ true "schema_violation" none refl
                        (λ h. (value, refl, e), λ h. refl)
                  | violation message ↦ λ e.
                      Says-verdict _ false "schema_violation" (some message) refl
                        (λ h. cc, λ (v, d, k). cc)
                  | validate_raised text ↦ λ e. Says-raised _ text (λ (v, d, k). cc)
                ]
        refl

  invoke-Says :
      (r : Registry libraries) (case_id : String) (i : ℕ) (spec : AssertionSpec)
      (context : EvaluationContext)
      → Serves libraries r case_id i spec
      → Says (Meets libraries spec context) (invoke libraries r case_id i spec context)
  unfolding invoke invoke_with regex_verdict python_verdict
  invoke-Says r case_id i (exact value) context s =
      Says-verdict _ _ "mismatch" none refl (str_eq_iff context.output value)
  invoke-Says r case_id i (contains value) context s =
      Says-verdict _ _ "mismatch" none refl (λ h. h, λ h. h)
  invoke-Says r case_id i (regex pattern) context (x, f, e) = rw f (
      Says-verdict _ _ "mismatch" none refl (
        λ h. (x, e, h),
        λ (y, d, h). subst (λ z. libraries.search z context.output ≡ true) (same d e) h,
      ))
  invoke-Says r case_id i (json_schema schema) context (x, f, e) = rw f (
      Says-iff _ _ _
        (
          λ (v, l, h). (x, v, e, l, h),
          λ (y, v, d, l, h). (v, l, subst (λ z. libraries.validate z v ≡ valid) (same d e) h),
        )
        (Says-schema (libraries.loads context.output) x _))
  invoke-Says r case_id i (tool_path path) context s =
      Says-verdict _ _ "path_mismatch" none refl (texts_eq_iff context.tool_path path)
  invoke-Says r case_id i (latency max_ms) context s =
      Says-verdict _ _ "latency_exceeded" none refl (λ h. h, λ h. h)
  invoke-Says r case_id i (python entrypoint config) context (x, f, e) = rw f (
      Says-iff _ _ _
        (
          λ h. (x, e, h),
          λ (y, d, h).
              subst (λ z. Approves (libraries.call z (to_dict context) config)) (same d e) h,
        )
        (Says-plugin (libraries.call x (to_dict context) config)))

  evaluate_from-AreVerdicts :
      (r : Registry libraries) (case_id : String) (i : ℕ) (specs : List AssertionSpec)
      (context : EvaluationContext)
      → ServesFrom libraries r case_id i specs
      → AreVerdicts libraries context i specs (evaluate_from libraries r case_id i specs context)
  unfolding evaluate_from evaluate_one
  evaluate_from-AreVerdicts r case_id i [] context s = tt
  evaluate_from-AreVerdicts r case_id i (spec ∷ specs) context (s, rest) =
      let says = invoke-Says r case_id i spec context s in
      (
        record {
          index = outcome_of-index i (type_of spec) _;
          type = outcome_of-type i (type_of spec) _;
          reason = says.reason i (type_of spec);
          meets = says.meets i (type_of spec);
        },
        evaluate_from-AreVerdicts r case_id (suc i) specs context rest,
      )

  All-AreVerdicts :
      (r : Registry libraries) (cases : List TestCase)
      → All (λ t. ServesFrom libraries r t.case_id 0 (effective_assertions t)) cases
      → All
          (λ t.
            (context : EvaluationContext)
            → AreVerdicts libraries context 0
                (effective_assertions t)
                (evaluate libraries r t context))
          cases
  unfolding evaluate
  All-AreVerdicts r [] s = tt
  All-AreVerdicts r (t ∷ cases) (s, rest) = (
    λ context. evaluate_from-AreVerdicts r t.case_id 0 (effective_assertions t) context s,
    All-AreVerdicts r cases rest,
  )

-- With the registry of cases whose ids are distinct, every evaluation of each case gives one outcome
-- for each of its assertions, in their order; an outcome has passed exactly when the output, tool
-- path or latency meets what the assertion asks, whatever the libraries raise, and exactly then is
-- its reason `passed`.
pub evaluate-AreVerdicts :
    {Pattern Validator Function : Type 0} (libraries : Libraries Pattern Validator Function)
    (cases : List TestCase) (r : Registry libraries)
    → are_unique (map (λ t. t.case_id) cases) ≡ true
    → registry_of libraries cases ≡ some r
    → All
        (λ t.
          (context : EvaluationContext)
          → AreVerdicts libraries context 0
              (effective_assertions t)
              (evaluate libraries r t context))
        cases
evaluate-AreVerdicts libraries cases r u h =
    All-AreVerdicts libraries r cases (registry_of-Serves libraries cases r u h)
