-- ===== src/Prelude/Shuffles.antt =====
-- The same items in another order: what a list computes without regard to order.
use Prim.Native.Nat.{ℕ, suc, ◌+◌, ◌<◌}
use mathlib.Core.Path.{◌≡◌, refl, sym, ap, ap₂}
use mathlib.Core.Logic.{inl, inr}
use mathlib.Core.Bool.{Bool, true, false, ◌&&◌, ◌||◌}
use mathlib.Core.List.{List, [], ◌∷◌, ◌++◌, map}
use native.Mathlib.Omega.{arith}
use agent_storm.Prelude.Tests.{◌==◌, if◌then◌else◌, Bool-cases, ==→eq}
use agent_storm.Prelude.Lists.{length, all_of, any_of, sum_of, keep}
pub use mathlib.Core.List.{Permᴰ}
use mathlib.Core.List.Permᴰ

and_swap : (a b c : Bool) → a && (b && c) ≡ b && (a && c)
and_swap true b c = refl
and_swap false true c = refl
and_swap false false c = refl

or_swap : (a b c : Bool) → a || (b || c) ≡ b || (a || c)
or_swap false b c = refl
or_swap true true c = refl
or_swap true false c = refl

module _ {ℓ} {A : Type ℓ} where
  pub length-Perm : {xs ys : List A} → Permᴰ xs ys → length xs ≡ length ys
  length-Perm Permᴰ.nil = refl
  length-Perm (Permᴰ.cons e p) = ap suc (length-Perm p)
  length-Perm (Permᴰ.swap e f) = refl
  length-Perm (Permᴰ.trans p q) = omega (arith, length-Perm p, length-Perm q)

  pub sum_of-Perm : (f : A → ℕ) {xs ys : List A} → Permᴰ xs ys → sum_of f xs ≡ sum_of f ys
  sum_of-Perm f Permᴰ.nil = refl
  sum_of-Perm f (Permᴰ.cons e p) = omega (arith, ap f e, sum_of-Perm f p)
  sum_of-Perm f (Permᴰ.swap d e) = omega (arith, ap f d, ap f e)
  sum_of-Perm f (Permᴰ.trans p q) = omega (arith, sum_of-Perm f p, sum_of-Perm f q)

  pub all_of-Perm : (t : A → Bool) {xs ys : List A} → Permᴰ xs ys → all_of t xs ≡ all_of t ys
  all_of-Perm t Permᴰ.nil = refl
  all_of-Perm t (Permᴰ.cons e p) = ap₂ ◌&&◌ (ap t e) (all_of-Perm t p)
  all_of-Perm t (Permᴰ.swap {a} {b} {l = l} d e) = rw (← d, ← e) (and_swap (t a) (t b) (all_of t l))
  all_of-Perm t (Permᴰ.trans p q) = rw (all_of-Perm t p) (all_of-Perm t q)

  pub any_of-Perm : (t : A → Bool) {xs ys : List A} → Permᴰ xs ys → any_of t xs ≡ any_of t ys
  any_of-Perm t Permᴰ.nil = refl
  any_of-Perm t (Permᴰ.cons e p) = ap₂ ◌||◌ (ap t e) (any_of-Perm t p)
  any_of-Perm t (Permᴰ.swap {a} {b} {l = l} d e) = rw (← d, ← e) (or_swap (t a) (t b) (any_of t l))
  any_of-Perm t (Permᴰ.trans p q) = rw (any_of-Perm t p) (any_of-Perm t q)

  kept : (t : A → Bool) (a : A) (l : List A) → t a ≡ true → keep t (a ∷ l) ≡ a ∷ keep t l
  kept t a l h = grind arith

  dropped : (t : A → Bool) (a : A) (l : List A) → t a ≡ false → keep t (a ∷ l) ≡ keep t l
  dropped t a l h = grind arith

  keep_swap :
      (t : A → Bool) (a b : A) (l : List A) → Permᴰ (keep t (a ∷ b ∷ l)) (keep t (b ∷ a ∷ l))
  keep_swap t a b l = elim (Bool-cases (t a)) [
    | inl h ↦ elim (Bool-cases (t b)) [
      | inl k ↦
          rw (kept t a (b ∷ l) h, kept t b l k, kept t b (a ∷ l) k, kept t a l h)
            (Permᴰ.swap refl refl)
      | inr k ↦
          rw (kept t a (b ∷ l) h, dropped t b l k, dropped t b (a ∷ l) k, kept t a l h)
            (Permᴰ.refl _)
    ]
    | inr h ↦ elim (Bool-cases (t b)) [
      | inl k ↦
          rw (dropped t a (b ∷ l) h, kept t b l k, kept t b (a ∷ l) k, dropped t a l h)
            (Permᴰ.refl _)
      | inr k ↦
          rw (dropped t a (b ∷ l) h, dropped t b l k, dropped t b (a ∷ l) k, dropped t a l h)
            (Permᴰ.refl _)
    ]
  ]

  keep_cons :
      (t : A → Bool) (a : A) (xs ys : List A)
      → Permᴰ (keep t xs) (keep t ys)
      → Permᴰ (keep t (a ∷ xs)) (keep t (a ∷ ys))
  keep_cons t a xs ys p = elim (Bool-cases (t a)) [
    | inl h ↦ rw (kept t a xs h, kept t a ys h) (Permᴰ.cons refl p)
    | inr h ↦ rw (dropped t a xs h, dropped t a ys h) p
  ]

  pub keep-Perm : (t : A → Bool) {xs ys : List A} → Permᴰ xs ys → Permᴰ (keep t xs) (keep t ys)
  keep-Perm t Permᴰ.nil = Permᴰ.nil
  keep-Perm t (Permᴰ.cons {a} e p) = rw (← e) (keep_cons t a _ _ (keep-Perm t p))
  keep-Perm t (Permᴰ.swap {a} {b} {l = l} d e) = rw (← d, ← e) (keep_swap t a b l)
  keep-Perm t (Permᴰ.trans p q) = Permᴰ.trans (keep-Perm t p) (keep-Perm t q)

  pub map-Perm {κ} :
      {B : Type κ} (f : A → B) {xs ys : List A} → Permᴰ xs ys → Permᴰ (map f xs) (map f ys)
  map-Perm f Permᴰ.nil = Permᴰ.nil
  map-Perm f (Permᴰ.cons e p) = Permᴰ.cons (ap f e) (map-Perm f p)
  map-Perm f (Permᴰ.swap d e) = Permᴰ.swap (ap f d) (ap f e)
  map-Perm f (Permᴰ.trans p q) = Permᴰ.trans (map-Perm f p) (map-Perm f q)

  -- An item in the middle may come first.
  middle : (us : List A) (x : A) (vs : List A) → Permᴰ (x ∷ us ++ vs) (us ++ x ∷ vs)
  middle [] x vs = Permᴰ.refl _
  middle (u ∷ us) x vs = Permᴰ.trans (Permᴰ.swap refl refl) (Permᴰ.cons refl (middle us x vs))

-- How often `i` occurs.
abbrev pub count : ℕ → List ℕ → ℕ
count i [] = 0
count i (j ∷ js) = (if i == j then 1 else 0) + count i js

pub count-append : (i : ℕ) (xs ys : List ℕ) → count i (xs ++ ys) ≡ count i xs + count i ys
count-append i [] ys = omega arith
count-append i (x ∷ xs) ys = omega (arith, count-append i xs ys)

count-here : (i : ℕ) (js : List ℕ) → 0 < count i (i ∷ js)
count-here i js = ground arith

-- Where a number occurs.
occurrence :
    (i : ℕ) (js : List ℕ) → 0 < count i js → (us : List ℕ) × (vs : List ℕ) × (js ≡ us ++ i ∷ vs)
occurrence i [] h = absurd (omega arith)
occurrence i (j ∷ js) h = elim (Bool-cases (i == j)) [
  | inl e ↦ ([], js, ap (λ k. k ∷ js) (sym (==→eq i j e)))
  | inr e ↦ let (us, vs, f) = occurrence i js (ground arith) in (j ∷ us, vs, ap (λ l. j ∷ l) f)
]

-- Lists of numbers in which each number occurs as often are the same up to order.
pub count-Perm : (xs ys : List ℕ) → ((i : ℕ) → count i xs ≡ count i ys) → Permᴰ xs ys
count-Perm [] [] h = Permᴰ.nil
count-Perm [] (y ∷ ys) h = absurd (omega (arith, h y, count-here y ys))
count-Perm (x ∷ xs) ys h =
    let (us, vs, e) = occurrence x ys (omega (arith, h x, count-here x xs)) in
    let rest =
      count-Perm xs (us ++ vs) (λ i.
        omega (arith, h i, ap (count i) e, count-append i us (x ∷ vs), count-append i us vs)) in
    rw e (Permᴰ.trans (Permᴰ.cons refl rest) (middle us x vs))
