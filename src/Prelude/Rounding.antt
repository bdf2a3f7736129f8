-- ===== src/Prelude/Rounding.antt =====
-- Python's `round` and `Decimal.quantize`: to the nearest, a tie to the even neighbour.
use Prim.Native.Nat.{ℕ, ◌+◌, ◌*◌, ◌/◌, ◌%◌, ◌≤◌, ◌<◌, compare, Ordering}
use mathlib.Core.Path.{◌≡◌}
use mathlib.Core.Logic.{◌⊎◌, inl, inr}
use native.Mathlib.Nat.{div-add-mod}
use native.Mathlib.Omega.{arith}
use agent_storm.Prelude.Tests.{◌==◌, if◌then◌else◌}

abbrev to_even : ℕ → ℕ
to_even q = if q % 2 == 0 then q else (q + 1)

-- n / d rounded half to even.
unfoldable pub round_half_even : ℕ → ℕ → ℕ
round_half_even n d = elim (compare (2 * (n % d)) d) [
  | Ordering.lt ↦ n / d
  | Ordering.eq ↦ to_even (n / d)
  | Ordering.gt ↦ n / d + 1
]

round_choice :
    (n d : ℕ)
    → ((round_half_even n d ≡ n / d) × (2 * (n % d) ≤ d))
      ⊎ ((round_half_even n d ≡ n / d + 1) × (d ≤ 2 * (n % d)))
unfolding round_half_even
round_choice n d = ground arith

-- The rounded value is within half a unit of the fraction.
pub round_half_even_near :
    (n d : ℕ)
    → 0 < d
    → (2 * n ≤ 2 * (round_half_even n d * d) + d) × (2 * (round_half_even n d * d) ≤ 2 * n + d)
round_half_even_near n d h = elim (round_choice n d) [
  | inl (e, s) ↦ rw e (omega (arith, div-add-mod n d))
  | inr (e, s) ↦ rw e (omega (arith, div-add-mod n d))
]

-- Rounding is monotone in the numerator, so a fraction below a whole number rounds to at most it.
pub round_half_even-le : (n d k : ℕ) → 0 < d → n ≤ k * d → round_half_even n d ≤ k
round_half_even-le n d k h b = elim (round_choice n d) [
  | inl (e, s) ↦ rw e (grind (arith, div-add-mod n d))
  | inr (e, s) ↦ rw e (grind (arith, div-add-mod n d))
]

pub le-round_half_even : (n d k : ℕ) → 0 < d → k * d ≤ n → k ≤ round_half_even n d
le-round_half_even n d k h b = elim (round_choice n d) [
  | inl (e, s) ↦ rw e (grind (arith, div-add-mod n d))
  | inr (e, s) ↦ rw e (grind (arith, div-add-mod n d))
]

pub round_zero : (d : ℕ) → 0 < d → round_half_even 0 d ≡ 0
round_zero d h = omega (arith, round_half_even-le 0 d 0 h (omega arith))
