-- ===== src/Pricing/Order.antt =====
-- pricing.py: a sum of costs and their order.
use agent_storm.Prelude.{
  ℕ, ◌+◌, ◌<◌, ◌^◌, true, ltb, lt→ltb, any_of, if◌then◌else◌, sym, ap, ap₂, ◌∙◌, Option, none, some,
  List, [], ◌∷◌, ◌≡◌, arith, is_some, or_zero, not, sum_of,
}
use agent_storm.Prelude.Shuffles.{Permᴰ, sum_of-Perm, any_of-Perm}
use agent_storm.Pricing.{in_context, sum_known, sum_costs}

-- A sum of fewer than 29 digits is exact.
sum_known-exact :
    (total : ℕ) (values : List (Option ℕ))
    → total + sum_of or_zero values < 10 ^ 28
    → sum_known total values ≡ total + sum_of or_zero values
unfolding sum_known in_context
sum_known-exact total [] h = omega arith
sum_known-exact total (none ∷ values) h =
    omega (arith, sum_known-exact total values (omega (arith, h)))
sum_known-exact total (some value ∷ values) h =
    let small : ltb (total + value) (10 ^ 28) ≡ true = lt→ltb _ _ (omega (arith, h)) in
    let rest = sum_known-exact (total + value) values (omega (arith, h)) in
    rw small (omega (arith, rest))

-- Costs are known in the sum where all are, and add up exactly where they have at most 28 digits.
pub sum_costs-exact :
    (values : List (Option ℕ))
    → sum_of or_zero values < 10 ^ 28
    → sum_costs values
      ≡ (if any_of (λ v. not (is_some v)) values then none else some (sum_of or_zero values))
unfolding sum_costs
sum_costs-exact values h =
    ap (λ n. if any_of (λ v. not (is_some v)) values then none else some n)
      (sum_known-exact 0 values (omega (arith, h)) ∙ omega arith)

pub sum_costs-Perm :
    {xs ys : List (Option ℕ)}
    → Permᴰ xs ys
    → sum_of or_zero xs < 10 ^ 28
    → sum_costs xs ≡ sum_costs ys
sum_costs-Perm {xs} {ys} p h =
    let same = sum_of-Perm or_zero p in
    sum_costs-exact xs h
    ∙ ap₂ (λ b n. if b then none else some n) (any_of-Perm (λ v. not (is_some v)) p) same
    ∙ sym (sum_costs-exact ys (omega (arith, h, same)))
