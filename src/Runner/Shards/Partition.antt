-- ===== src/Runner/Shards/Partition.antt =====
-- runner.py: the shards of a run share its cases out.
use agent_storm.Prelude.{
  ℕ, zero, suc, ◌+◌, ◌%◌, ◌≤◌, ◌<◌, List, [], ◌∷◌, ◌≡◌, refl, ap, ap₂, ◌∙◌, arith, ◌==◌, map,
  if◌then◌else◌, sum_of, sum_of-append,
}
use native.Mathlib.Nat.{mod-lt, add-zero, zero-add, add-suc, suc-add}
use agent_storm.Runner.Shards.{select_from, selected, work_from, work}

-- f 0 + … + f (n - 1)
abbrev pub sum_below : ℕ → (ℕ → ℕ) → ℕ
sum_below zero f = 0
sum_below (suc n) f = sum_below n f + f n

sum_below_add : (n : ℕ) (f g : ℕ → ℕ) → sum_below n (λ s. f s + g s) ≡ sum_below n f + sum_below n g
sum_below_add zero f g = refl
sum_below_add (suc n) f g = omega (arith, sum_below_add n f g)

sum_below_cong : (n : ℕ) {f g : ℕ → ℕ} → ((s : ℕ) → f s ≡ g s) → sum_below n f ≡ sum_below n g
sum_below_cong zero h = refl
sum_below_cong (suc n) h = ap₂ (λ a b. a + b) (sum_below_cong n h) (h n)

sum_below_zero : (n : ℕ) → sum_below n (λ s. 0) ≡ 0
sum_below_zero zero = refl
sum_below_zero (suc n) = omega (arith, sum_below_zero n)

-- `w` at `j` and 0 elsewhere.
abbrev at_only : ℕ → ℕ → ℕ → ℕ
at_only j w s = if j == s then w else 0

sum_below_beyond : (n j w : ℕ) → n ≤ j → sum_below n (at_only j w) ≡ 0
sum_below_beyond zero j w h = refl
sum_below_beyond (suc n) j w h = ground (arith, sum_below_beyond n j w)

sum_below_at : (n j w : ℕ) → j < n → sum_below n (at_only j w) ≡ w
sum_below_at zero j w h = absurd (omega arith)
sum_below_at (suc n) j w h = ground (arith, sum_below_at n j w, sum_below_beyond n j w)

module _ {A : Type 0} (shard_count : ℕ) (weight : A → ℕ) where
  select_step :
      (shard_index index : ℕ) (test : A) (cases : List A)
      → sum_of weight (select_from shard_count shard_index index (test ∷ cases))
        ≡ at_only (index % shard_count) (weight test) shard_index
          + sum_of weight (select_from shard_count shard_index (suc index) cases)
  unfolding select_from
  select_step shard_index index test cases = ground arith

  select_from_partition :
      (index : ℕ) (cases : List A)
      → 0 < shard_count
      → sum_below shard_count (λ s. sum_of weight (select_from shard_count s index cases))
        ≡ sum_of weight cases
  unfolding select_from
  select_from_partition index [] p = sum_below_zero shard_count
  select_from_partition index (test ∷ cases) p =
      sum_below_cong shard_count (λ s. select_step s index test cases)
      ∙ sum_below_add shard_count (at_only (index % shard_count) (weight test))
          (λ s. sum_of weight (select_from shard_count s (suc index) cases))
      ∙ ap₂ (λ a b. a + b)
          (sum_below_at shard_count (index % shard_count) (weight test) (mod-lt index p))
          (select_from_partition (suc index) cases p)

-- The shards of a run share its cases out: for any weight of the cases, the weights of what the
-- shards 0 to shard_count - 1 select add up to that of all cases. So every case is in one shard, as
-- often as it is given.
pub selected_partition :
    {A : Type 0} (shard_count : ℕ) (weight : A → ℕ) (cases : List A)
    → 0 < shard_count
    → sum_below shard_count (λ s. sum_of weight (selected shard_count s cases))
      ≡ sum_of weight cases
unfolding selected
selected_partition shard_count weight cases p = select_from_partition shard_count weight 0 cases p

sum_of-map :
    {A B : Type 0} (f : A → B) (weight : B → ℕ) (xs : List A)
    → sum_of weight (map f xs) ≡ sum_of (λ x. weight (f x)) xs
sum_of-map f weight [] = refl
sum_of-map f weight (x ∷ xs) = ap (λ n. weight (f x) + n) (sum_of-map f weight xs)

-- From `iteration` on, the next `rounds` iterations.
abbrev sum_rounds : (ℕ → ℕ) → ℕ → ℕ → ℕ
sum_rounds f iteration zero = 0
sum_rounds f iteration (suc rounds) = f iteration + sum_rounds f (suc iteration) rounds

work_from_sum :
    {A : Type 0} (weight : A × ℕ → ℕ) (iteration rounds : ℕ) (cases : List A)
    → sum_of weight (work_from iteration rounds cases)
      ≡ sum_rounds (λ i. sum_of (λ test. weight (test, i)) cases) iteration rounds
unfolding work_from
work_from_sum weight iteration zero cases = refl
work_from_sum weight iteration (suc rounds) cases =
    sum_of-append weight (map (λ test. (test, iteration)) cases)
      (work_from (suc iteration) rounds cases)
    ∙ ap₂ (λ a b. a + b) (sum_of-map (λ test. (test, iteration)) weight cases)
        (work_from_sum weight (suc iteration) rounds cases)

sum_rounds-last :
    (f : ℕ → ℕ) (iteration rounds : ℕ)
    → sum_rounds f iteration (suc rounds) ≡ sum_rounds f iteration rounds + f (iteration + rounds)
sum_rounds-last f iteration zero = omega (arith, ap f (add-zero iteration))
sum_rounds-last f iteration (suc rounds) = omega (
  arith,
  sum_rounds-last f (suc iteration) rounds,
  ap f (add-suc iteration rounds),
  ap f (suc-add iteration rounds),
)

sum_rounds_below : (f : ℕ → ℕ) (rounds : ℕ) → sum_rounds f 0 rounds ≡ sum_below rounds f
sum_rounds_below f zero = refl
sum_rounds_below f (suc rounds) =
    sum_rounds-last f 0 rounds
    ∙ ap₂ (λ a b. a + b) (sum_rounds_below f rounds) (ap f (zero-add rounds))

-- The work of a shard pairs each of its cases with each iteration, once: for any weight of such
-- pairs, the weight of the work is the sum over the iterations of that of the cases.
pub work_pairs :
    {A : Type 0} (weight : A × ℕ → ℕ) (iterations : ℕ) (cases : List A)
    → sum_of weight (work iterations cases)
      ≡ sum_below iterations (λ i. sum_of (λ test. weight (test, i)) cases)
unfolding work
work_pairs weight iterations cases =
    work_from_sum weight 0 iterations cases
    ∙ sum_rounds_below (λ i. sum_of (λ test. weight (test, i)) cases) iterations
