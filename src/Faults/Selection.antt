-- ===== src/Faults/Selection.antt =====
-- faults.py: which rule `select_fault_rule` picks.
use agent_storm.Prelude.{
  ℕ, suc, ◌*◌, ◌^◌, ◌<◌, ◌≤◌, String, Bool, true, false, ◌&&◌, none, some, List, [], ◌∷◌, ◌++◌, ◌≡◌,
  ◌⊎◌, ◌↔◌, Among, str_eq_iff, has_text, is_empty, and_true, join_nul, decimal, refl, ap, arith,
  eq_of_some-eq, subst, ltb, lt→ltb, ltb→lt, Bool-cases, inl, inr, All,
}
use native.Mathlib.Nat.{le_trans, mul-le-mul_right}
use agent_storm.Config.{Ratio, FaultRuleConfig, FaultScenarioConfig}
use agent_storm.Faults.{
  has_number, is_selected, is_drawn, fault_draw, first_rule, select_fault_rule,
}

has_text_iff : (x : String) (xs : List String) → (has_text x xs ≡ true) ↔ Among x xs
has_text_iff x [] = (λ h. cc, λ h. absurd h)
has_text_iff x (y ∷ ys) = ground (arith, str_eq_iff x y, has_text_iff x ys)

has_number_iff : (n : ℕ) (ns : List ℕ) → (has_number n ns ≡ true) ↔ Among n ns
has_number_iff n [] = (λ h. cc, λ h. absurd h)
has_number_iff n (m ∷ ms) = ground (arith, has_number_iff n ms)

empty_iff : {A : Type 0} (xs : List A) → (is_empty xs ≡ true) ↔ (xs ≡ [])
empty_iff [] = (λ h. refl, λ h. refl)
empty_iff (x ∷ xs) = (λ h. cc, λ h. cc)

module _ (digest_number : String → ℕ) (digest : String) (seed : ℕ) (case_id : String)
    (iteration attempt : ℕ) where
  -- The rule fires for this attempt, as the test of the code.
  abbrev fires : FaultRuleConfig → Bool
  fires rule =
      is_selected rule case_id iteration attempt
      && is_drawn (fault_draw digest_number digest seed case_id iteration attempt rule)
          rule.probability

  -- The rule names the case and the iteration, or names none, and names the attempt; and the number
  -- that is drawn of the scenario, the seed, the case, the attempt and the rule is below the rule's
  -- share of 2 ^ 64.
  pub record Fires (rule : FaultRuleConfig) : Type 0 where
    pub case : (rule.case_ids ≡ []) ⊎ Among case_id rule.case_ids
    pub round : (rule.iterations ≡ []) ⊎ Among iteration rule.iterations
    pub numbered : Among attempt rule.attempts
    pub drawn :
        digest_number (
            join_nul (
              digest
              ∷ decimal seed
              ∷ case_id
              ∷ decimal iteration
              ∷ decimal attempt
              ∷ rule.name
              ∷ []))
          * suc rule.probability.over
        < rule.probability.numerator * 2 ^ 64

  selected_iff :
      (rule : FaultRuleConfig)
      → (is_selected rule case_id iteration attempt ≡ true) ↔ (
          ((rule.case_ids ≡ []) ⊎ Among case_id rule.case_ids)
          × ((rule.iterations ≡ []) ⊎ Among iteration rule.iterations)
          × Among attempt rule.attempts)
  unfolding is_selected
  selected_iff rule = ground (
    arith,
    empty_iff rule.case_ids,
    has_text_iff case_id rule.case_ids,
    empty_iff rule.iterations,
    has_number_iff iteration rule.iterations,
    has_number_iff attempt rule.attempts,
  )

  fires_iff : (rule : FaultRuleConfig) → (fires rule ≡ true) ↔ Fires rule
  unfolding is_drawn fault_draw
  fires_iff rule = (
    λ h.
        let (selected, drawn) = and_true (is_selected rule case_id iteration attempt) _ h in
        let (case, round, numbered) = (selected_iff rule).0 selected in
        record { case = case; round = round; numbered = numbered; drawn = ltb→lt _ _ drawn },
    λ f. rw ((selected_iff rule).1 (f.case, f.round, f.numbered)) (lt→ltb _ _ f.drawn),
  )

  unfired : (rule : FaultRuleConfig) → fires rule ≡ false → ¬ Fires rule
  unfired rule e f = let wrong = (fires_iff rule).1 f in cc

  first_rule_split :
      (rules : List FaultRuleConfig) (rule : FaultRuleConfig)
      → first_rule digest_number digest seed case_id iteration attempt rules ≡ some rule
      → (before after : List FaultRuleConfig) × (rules ≡ before ++ rule ∷ after)
        × All (λ r. ¬ Fires r) before
        × Fires rule
  unfolding first_rule
  first_rule_split [] rule h = cc
  first_rule_split (r ∷ rules) rule h = elim (Bool-cases (fires r)) [
    | inl e ↦
        let same : some r ≡ some rule = rw e at h in
        (
          [],
          rules,
          ap (λ x. x ∷ rules) (eq_of_some-eq same),
          tt,
          subst Fires (eq_of_some-eq same) ((fires_iff r).0 e),
        )
    | inr e ↦
        let (before, after, p, q, f) = first_rule_split rules rule (rw e at h) in
        (r ∷ before, after, ap (λ l. r ∷ l) p, (unfired r e, q), f)
  ]

  first_rule-none :
      (rules : List FaultRuleConfig)
      → first_rule digest_number digest seed case_id iteration attempt rules ≡ none
      → All (λ r. ¬ Fires r) rules
  unfolding first_rule
  first_rule-none [] h = tt
  first_rule-none (r ∷ rules) h = elim (Bool-cases (fires r)) [
    | inl e ↦ (let wrong : some r ≡ none = rw e at h in cc)
    | inr e ↦ (unfired r e, first_rule-none rules (rw e at h))
  ]

-- With a scenario and a seed: the picked rule fires for the attempt (it names the case, the iteration
-- and the attempt, where an empty list of cases or of iterations names all, and its draw is below its
-- probability) and no rule of the scenario before it does; and no rule is picked only if none fires.
pub select_fault_rule_first :
    (digest_number : String → ℕ) (scenario : FaultScenarioConfig) (seed : ℕ) (case_id : String)
    (iteration attempt : ℕ)
    → let picked =
        select_fault_rule digest_number (some scenario) (some seed) case_id iteration attempt in
      let IsFired = Fires digest_number scenario.digest seed case_id iteration attempt in
      ((rule : FaultRuleConfig)
        → picked ≡ some rule
        → (before after : List FaultRuleConfig) × (scenario.rules ≡ before ++ rule ∷ after)
          × All (λ r. ¬ IsFired r) before
          × IsFired rule)
      × (picked ≡ none → All (λ r. ¬ IsFired r) scenario.rules)
unfolding select_fault_rule
select_fault_rule_first digest_number scenario seed case_id iteration attempt = (
  first_rule_split digest_number scenario.digest seed case_id iteration attempt scenario.rules,
  first_rule-none digest_number scenario.digest seed case_id iteration attempt scenario.rules,
)

scaled_lt : (a d m : ℕ) → 0 < d → a < m → a * d < d * m
scaled_lt a d m p h = grind arith

never : (a : ℕ) → ltb a (0 * 2 ^ 64) ≡ false
never a = ground arith

-- Of a digest number below 2 ^ 64: a rule of probability 1 is always drawn, one of probability 0
-- never, and a greater probability keeps every draw of a smaller one.
pub is_drawn_bounds :
    (draw : ℕ) (p q : Ratio)
    → draw < 2 ^ 64
    → (p.numerator ≡ suc p.over → is_drawn draw p ≡ true)
      × (p.numerator ≡ 0 → is_drawn draw p ≡ false)
      × (p.over ≡ q.over
          → p.numerator ≤ q.numerator
          → is_drawn draw p ≡ true
          → is_drawn draw q ≡ true)
unfolding is_drawn
is_drawn_bounds draw p q d = (
  λ e. lt→ltb _ _ (rw e (scaled_lt draw (suc p.over) (2 ^ 64) (omega arith) d)),
  λ e. rw e (never (draw * suc p.over)),
  λ o n h. lt→ltb _ _ (rw (← o) (le_trans (ltb→lt _ _ h) (mul-le-mul_right (2 ^ 64) n))),
)
