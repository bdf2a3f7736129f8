-- ===== src/Runner/Summary/Percentile.antt =====
-- runner.py: `p95_latency_ms` is the nearest-rank 95th percentile.
use agent_storm.Prelude.{
  ℕ, zero, suc, ◌+◌, ◌*◌, ◌≤◌, ◌<◌, List, [], ◌∷◌, ◌≡◌, refl, ap, ◌∙◌, subst, inl, inr, arith, leb,
  leb→le, if◌then◌else◌, is_empty, length, All, Bool-cases,
}
use agent_storm.Runner.Summary.{insert_sorted, sorted, nth, p95_index, p95}

-- How many values are at most `v`.
abbrev pub count_le : ℕ → List ℕ → ℕ
count_le v [] = 0
count_le v (x ∷ xs) = (if leb x v then 1 else 0) + count_le v xs

abbrev IsSorted : List ℕ → Type 0
IsSorted [] = Unit
IsSorted (x ∷ xs) = All (λ y. x ≤ y) xs × IsSorted xs

count_le-insert : (v x : ℕ) (ys : List ℕ) → count_le v (insert_sorted x ys) ≡ count_le v (x ∷ ys)
unfolding insert_sorted
count_le-insert v x [] = refl
count_le-insert v x (y ∷ ys) = ground (arith, count_le-insert v x ys)

count_le-sorted : (v : ℕ) (xs : List ℕ) → count_le v (sorted xs) ≡ count_le v xs
unfolding sorted
count_le-sorted v [] = refl
count_le-sorted v (x ∷ xs) = ground (arith, count_le-insert v x (sorted xs), count_le-sorted v xs)

length-insert : (x : ℕ) (ys : List ℕ) → length (insert_sorted x ys) ≡ suc (length ys)
unfolding insert_sorted
length-insert x [] = refl
length-insert x (y ∷ ys) = ground (arith, length-insert x ys)

length-sorted : (xs : List ℕ) → length (sorted xs) ≡ length xs
unfolding sorted
length-sorted [] = refl
length-sorted (x ∷ xs) = ground (arith, length-insert x (sorted xs), length-sorted xs)

All-insert :
    (n x : ℕ) (ys : List ℕ) → n ≤ x → All (λ y. n ≤ y) ys → All (λ y. n ≤ y) (insert_sorted x ys)
unfolding insert_sorted
All-insert n x [] h a = (h, tt)
All-insert n x (y ∷ ys) h a = elim (Bool-cases (leb x y)) [
  | inl e ↦ rw e (h, a)
  | inr e ↦ rw e (a.0, All-insert n x ys h a.1)
]

All-le : (m n : ℕ) (ys : List ℕ) → m ≤ n → All (λ y. n ≤ y) ys → All (λ y. m ≤ y) ys
All-le m n [] h a = tt
All-le m n (y ∷ ys) h a = (omega (arith, a.0), All-le m n ys h a.1)

insert-IsSorted : (x : ℕ) (ys : List ℕ) → IsSorted ys → IsSorted (insert_sorted x ys)
unfolding insert_sorted
insert-IsSorted x [] s = (tt, tt)
insert-IsSorted x (y ∷ ys) s = elim (Bool-cases (leb x y)) [
  | inl e ↦ rw e ((leb→le x y e, All-le x y ys (leb→le x y e) s.0), s)
  | inr e ↦ rw e (All-insert y x ys (ground arith) s.0, insert-IsSorted x ys s.1)
]

sorted-IsSorted : (xs : List ℕ) → IsSorted (sorted xs)
unfolding sorted
sorted-IsSorted [] = tt
sorted-IsSorted (x ∷ xs) = insert-IsSorted x (sorted xs) (sorted-IsSorted xs)

le-nth : (n k : ℕ) (xs : List ℕ) → All (λ y. n ≤ y) xs → k < length xs → n ≤ nth xs k
unfolding nth
le-nth n k [] a h = absurd (omega arith)
le-nth n zero (x ∷ xs) a h = a.0
le-nth n (suc k) (x ∷ xs) a h = le-nth n k xs a.1 (omega arith)

-- At least k + 1 values of a sorted list are at most its value at k.
count_le-nth : (k : ℕ) (xs : List ℕ) → IsSorted xs → k < length xs → suc k ≤ count_le (nth xs k) xs
unfolding nth
count_le-nth k [] s h = absurd (omega arith)
count_le-nth zero (x ∷ xs) s h = ground arith
count_le-nth (suc k) (x ∷ xs) s h =
    ground (arith, le-nth x k xs s.0 (omega arith), count_le-nth k xs s.1 (omega arith))

none_below : (v n : ℕ) (xs : List ℕ) → All (λ y. n ≤ y) xs → v < n → count_le v xs ≡ 0
none_below v n [] a h = refl
none_below v n (x ∷ xs) a h = ground (arith, a.0, none_below v n xs a.1 h)

-- At most k values of a sorted list are at most a number below its value at k.
count_le-below : (v k : ℕ) (xs : List ℕ) → IsSorted xs → v < nth xs k → count_le v xs ≤ k
unfolding nth
count_le-below v k [] s h = omega arith
count_le-below v zero (x ∷ xs) s h = ground (arith, none_below v x xs s.0 h)
count_le-below v (suc k) (x ∷ xs) s h = ground (arith, count_le-below v k xs s.1 h)

guarded_nth : (xs : List ℕ) (k : ℕ) → (if is_empty xs then 0 else nth xs k) ≡ nth xs k
unfolding nth
guarded_nth [] k = refl
guarded_nth (x ∷ xs) k = refl

p95-nth : (values : List ℕ) → p95 values ≡ nth (sorted values) (p95_index (length values))
unfolding p95
p95-nth values =
    guarded_nth (sorted values) (p95_index (length (sorted values)))
    ∙ ap (λ n. nth (sorted values) (p95_index n)) (length-sorted values)

p95_index_bounds :
    (n : ℕ)
    → 0 < n
    → (p95_index n < n) × (95 * n ≤ 100 * suc (p95_index n)) × (100 * p95_index n < 95 * n)
unfolding p95_index
p95_index_bounds n h = omega arith

-- Of a non-empty list of latencies: at least 95 of 100 are at most the reported value, and fewer than
-- 95 of 100 are at most any smaller number.
pub p95_nearest_rank :
    (values : List ℕ)
    → 0 < length values
    → (95 * length values ≤ 100 * count_le (p95 values) values)
      × ((v : ℕ) → v < p95 values → 100 * count_le v values < 95 * length values)
p95_nearest_rank values h =
    let k = p95_index (length values) in
    let (inside, enough, fewer) = p95_index_bounds (length values) h in
    let ordered = sorted-IsSorted values in
    (
      rw (p95-nth values) (
          omega (
            arith,
            enough,
            count_le-sorted (nth (sorted values) k) values,
            count_le-nth k (sorted values) ordered (omega (arith, inside, length-sorted values)),
          )),
      λ v below. omega (
        arith,
        fewer,
        count_le-sorted v values,
        count_le-below v k (sorted values) ordered (subst (λ n. v < n) (p95-nth values) below),
      ),
    )
