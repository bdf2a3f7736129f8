-- ===== src/Retry/Backoff.antt =====
-- retry.py: the bounds of a delay.
use agent_storm.Prelude.{
  ℕ, suc, ◌+◌, ◌-◌, ◌*◌, ◌^◌, ◌≤◌, ◌<◌, min, String, Option, ◌≡◌, ◌⊎◌, refl, arith, inl, inr,
  Bool-cases, ◌==◌, ==→eq, ap, sym, ◌∙◌, round_half_even, round_half_even_near,
}
use native.Mathlib.Nat.{
  pow-suc, sub-zero, mul-le-mul_left, mul-le-mul_right, le_of_mul-le-mul_right, mul_assoc, add-mul,
}
use agent_storm.Config.{Ratio, RetryConfig}
use agent_storm.Retry.{capped_backoff, jittered, jitter_draw, retry_backoff_ms}

capped_suc :
    (config : RetryConfig) (k : ℕ)
    → capped_backoff config (suc k) ≡ min (config.initial_backoff_ms * 2 ^ k) config.max_backoff_ms
unfolding capped_backoff
capped_suc config k =
    ap (λ e. min (config.initial_backoff_ms * 2 ^ e) config.max_backoff_ms) (omega arith)

min_double : (x m : ℕ) → min (2 * x) m ≡ min (2 * min x m) m
min_double x m = omega arith

capped_doubles :
    (config : RetryConfig) (k : ℕ)
    → capped_backoff config (suc (suc k))
      ≡ min (2 * capped_backoff config (suc k)) config.max_backoff_ms
capped_doubles config k =
    capped_suc config (suc k)
    ∙ ap (λ x. min x config.max_backoff_ms) double
    ∙ min_double (config.initial_backoff_ms * 2 ^ k) config.max_backoff_ms
    ∙ ap (λ x. min (2 * x) config.max_backoff_ms) (sym (capped_suc config k))
  where
    double : config.initial_backoff_ms * 2 ^ suc k ≡ 2 * (config.initial_backoff_ms * 2 ^ k)
    double = grind (arith, pow-suc 2 k)

module _ (digest_number : String → ℕ) (config : RetryConfig) (seed : Option ℕ) (case_id : String)
    (iteration : ℕ) where
  backoff_plain :
      (attempt : ℕ)
      → config.jitter_ratio.numerator ≡ 0
      → retry_backoff_ms digest_number config seed case_id iteration attempt
        ≡ capped_backoff config attempt
  unfolding retry_backoff_ms
  backoff_plain attempt h = ground arith

  -- Without jitter the first delay is the configured one under the maximum, and each further failure
  -- doubles the delay until the maximum.
  pub backoff_doubles :
      (attempt : ℕ)
      → config.jitter_ratio.numerator ≡ 0
      → let backoff = retry_backoff_ms digest_number config seed case_id iteration in
        (backoff 1 ≡ min config.initial_backoff_ms config.max_backoff_ms)
        × (backoff (suc (suc attempt)) ≡ min (2 * backoff (suc attempt)) config.max_backoff_ms)
  backoff_doubles attempt h = (
    backoff_plain 1 h ∙ capped_suc config 0 ∙ (omega arith),
    rw (backoff_plain (suc (suc attempt)) h, backoff_plain (suc attempt) h)
        (capped_doubles config attempt),
  )

scaled_le : (a b w : ℕ) → 0 < w → a * w ≤ b * w → a ≤ b
scaled_le a b w h p = grind arith

factor_bounds :
    (den num draw draws : ℕ)
    → num ≤ den
    → draw < draws
    → (den * draws + 2 * num * draw - num * draws ≤ (den + num) * draws)
      × ((den - num) * draws ≤ den * draws + 2 * num * draw - num * draws)
factor_bounds den num draw draws h d = (omega (arith, drawn, split), omega (arith, drawn, split))
  where
    drawn : num * draw ≤ num * draws
    drawn = mul-le-mul_left num (omega arith)

    split : den * draws ≡ num * draws + (den - num) * draws
    split = ap (λ t. t * draws) (omega arith) ∙ add-mul num (den - num) draws

-- The product under the rounding lies between capped * (1 - jitter) and capped * (1 + jitter).
product_bounds :
    (capped den num draw draws : ℕ)
    → num ≤ den
    → draw < draws
    → (capped * (den * draws + 2 * num * draw - num * draws) ≤ capped * (den + num) * draws)
      × (capped * (den - num) * draws ≤ capped * (den * draws + 2 * num * draw - num * draws))
product_bounds capped den num draw draws h d =
    let (upper, lower) = factor_bounds den num draw draws h d in
    (
      rw (mul_assoc capped (den + num) draws) (mul-le-mul_left capped upper),
      rw (mul_assoc capped (den - num) draws) (mul-le-mul_left capped lower),
    )

-- From bounds over `den * draws` to bounds over `den`.
window :
    (r n den draws low high : ℕ)
    → 0 < draws
    → (2 * n ≤ 2 * (r * (den * draws)) + den * draws)
      × (2 * (r * (den * draws)) ≤ 2 * n + den * draws)
    → n ≤ high * draws
    → low * draws ≤ n
    → (2 * (r * den) ≤ 2 * high + den) × (2 * low ≤ 2 * (r * den) + den)
window r n den draws low high p near up down = (
  le_of_mul-le-mul_right {k = draws} (omega (arith, near, up)) p,
  le_of_mul-le-mul_right {k = draws} (omega (arith, near, down)) p,
)

jittered_window :
    (capped : ℕ) (jitter : Ratio) (draw draws : ℕ)
    → jitter.numerator ≤ suc jitter.over
    → draw < draws
    → let r = jittered capped jitter draw draws in
      let den = suc jitter.over in
      (2 * (r * den) ≤ 2 * (capped * (den + jitter.numerator)) + den)
      × (2 * (capped * (den - jitter.numerator)) ≤ 2 * (r * den) + den)
unfolding jittered
jittered_window capped jitter draw draws h d =
    let den = suc jitter.over in
    let num = jitter.numerator in
    let n = capped * (den * draws + 2 * num * draw - num * draws) in
    let (up, down) = product_bounds capped den num draw draws h d in
    window (round_half_even n (den * draws)) n den draws (capped * (den - num))
      (capped * (den + num)) (omega arith) (round_half_even_near n (den * draws) (grind arith)) up
      down

-- What is claimed of a delay `r`.
abbrev IsWindowed : (r limit capped den num : ℕ) → Type 0
IsWindowed r limit capped den num =
    (r ≤ limit)
    × (2 * (r * den) ≤ 2 * (capped * (den + num)) + den)
    × ((r ≡ limit) ⊎ (2 * (capped * (den - num)) ≤ 2 * (r * den) + den))

plain_IsWindowed :
    (limit capped den num : ℕ) → capped ≤ limit → num ≡ 0 → IsWindowed capped limit capped den num
plain_IsWindowed limit capped den num c z = rw (z, sub-zero) (c, omega arith, inr (omega arith))

min_cases : (m j : ℕ) → ((min m j ≡ m) × (m ≤ j)) ⊎ ((min m j ≡ j) × (j ≤ m))
min_cases m j = omega arith

min-IsWindowed :
    (limit j capped den num : ℕ)
    → 2 * (j * den) ≤ 2 * (capped * (den + num)) + den
    → 2 * (capped * (den - num)) ≤ 2 * (j * den) + den
    → IsWindowed (min limit j) limit capped den num
min-IsWindowed limit j capped den num up down = elim (min_cases limit j) [
  | inl (e, l) ↦ rw e (omega arith, omega (arith, mul-le-mul_right den l), inl refl)
  | inr (e, l) ↦ rw e (l, up, inr down)
]

capped_le :
    (config : RetryConfig) (attempt : ℕ) → capped_backoff config attempt ≤ config.max_backoff_ms
unfolding capped_backoff
capped_le config attempt = omega arith

-- With a jitter between 0 and 1, a delay never passes the configured maximum; and up to the rounding
-- to a whole millisecond it lies between capped * (1 - jitter) and capped * (1 + jitter), unless the
-- maximum cuts it off.
pub backoff_window :
    (digest_number : String → ℕ) (config : RetryConfig) (seed : Option ℕ) (case_id : String)
    (iteration attempt : ℕ)
    → ((t : String) → digest_number t < 2 ^ 64)
    → config.jitter_ratio.numerator ≤ suc config.jitter_ratio.over
    → let r = retry_backoff_ms digest_number config seed case_id iteration attempt in
      let capped = capped_backoff config attempt in
      let den = suc config.jitter_ratio.over in
      let num = config.jitter_ratio.numerator in
      (r ≤ config.max_backoff_ms)
      × (2 * (r * den) ≤ 2 * (capped * (den + num)) + den)
      × ((r ≡ config.max_backoff_ms) ⊎ (2 * (capped * (den - num)) ≤ 2 * (r * den) + den))
unfolding retry_backoff_ms
backoff_window digest_number config seed case_id iteration attempt u h =
    let jitter = config.jitter_ratio in
    let capped = capped_backoff config attempt in
    elim (Bool-cases (jitter.numerator == 0)) [
      | inl e ↦ rw e (
          plain_IsWindowed config.max_backoff_ms capped (suc jitter.over) jitter.numerator
            (capped_le config attempt) (==→eq _ _ e))
      | inr e ↦
          let (up, down) =
            jittered_window capped jitter (jitter_draw digest_number seed case_id iteration attempt)
              (2 ^ 64) h (u _) in
          rw e (
            min-IsWindowed config.max_backoff_ms _ capped (suc jitter.over) jitter.numerator up
              down)
    ]
