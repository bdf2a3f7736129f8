-- ===== src/Prelude/Yields.antt =====
-- What the value of an optional result satisfies, through the ways in which a result is made.
use mathlib.Core.Path.{◌≡◌, refl, subst}
use mathlib.Core.Bool.{Bool, true, false}
use mathlib.Core.Option.{Option, none, some}
use agent_storm.Prelude.Tests.{◌>>=◌, if◌then◌else◌, guard, eq_of_some-eq}

abbrev pub Yields {ℓ κ} : {A : Type ℓ} → (A → Type κ) → Option A → Type (ℓ ⊔ κ)
Yields {A = A} P o = (x : A) → o ≡ some x → P x

module _ {ℓ κ} {A : Type ℓ} (P : A → Type κ) where
  pub Yields-none : Yields P none
  Yields-none x h = cc

  pub Yields-some : (a : A) → P a → Yields P (some a)
  Yields-some a p x h = subst P (eq_of_some-eq h) p

  pub Yields-if :
      (b : Bool) (chosen other : Option A)
      → (b ≡ true → Yields P chosen)
      → Yields P other
      → Yields P (if b then chosen else other)
  Yields-if true chosen other p q = p refl
  Yields-if false chosen other p q = q

  pub Yields-guard :
      (b : Bool) (f : Bool → Option A) → (b ≡ true → Yields P (f true)) → Yields P (guard b >>= f)
  Yields-guard true f p x h = p refl x h
  Yields-guard false f p x h = cc

  pub Yields-bind {μ} :
      {B : Type μ} (m : Option B) (f : B → Option A)
      → ((b : B) → m ≡ some b → Yields P (f b))
      → Yields P (m >>= f)
  Yields-bind none f p x h = cc
  Yields-bind (some b) f p x h = p b refl x h
