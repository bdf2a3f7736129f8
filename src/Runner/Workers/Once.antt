-- ===== src/Runner/Workers/Once.antt =====
-- runner.py: each item of work is executed once.
use agent_storm.Prelude.{
  ℕ, zero, suc, ◌+◌, ◌≤◌, ◌<◌, min, false, List, [], ◌∷◌, ◌++◌, ◌≡◌, refl, ap, arith, ◌==◌, ltb,
  if◌then◌else◌, length, length-append, All,
}
pub use agent_storm.Prelude.Shuffles.{count, count-append}
use agent_storm.Runner.Workers.{
  Task, idle, gone, running, Pool, replicate, start, Step, takes, returns_empty, returns_stopped,
  finishes, stops, cancels, Reach, here, next,
}

abbrev held_by : ℕ → Task → ℕ
held_by i idle = 0
held_by i gone = 0
held_by i (running j) = if i == j then 1 else 0

-- How many tasks are executing item `i`.
abbrev pub held : ℕ → List Task → ℕ
held i [] = 0
held i (t ∷ ts) = held_by i t + held i ts

abbrev left_by : Task → ℕ
left_by gone = 1
left_by _ = 0

-- How many tasks have gone.
abbrev left : List Task → ℕ
left [] = 0
left (t ∷ ts) = left_by t + left ts

held-append : (i : ℕ) (xs ys : List Task) → held i (xs ++ ys) ≡ held i xs + held i ys
held-append i [] ys = omega arith
held-append i (x ∷ xs) ys = omega (arith, held-append i xs ys)

left-append : (xs ys : List Task) → left (xs ++ ys) ≡ left xs + left ys
left-append [] ys = omega arith
left-append (x ∷ xs) ys = omega (arith, left-append xs ys)

abbrev pub taken : ℕ → ℕ → ℕ
taken next_index i = if ltb i next_index then 1 else 0

record Inv (n : ℕ) (p : Pool) : Type 0 where
  bounded : p.next_index ≤ n
  once : (i : ℕ) → count i p.results + held i p.tasks ≤ taken p.next_index i
  exact : p.stopped ≡ false → (i : ℕ) → count i p.results + held i p.tasks ≡ taken p.next_index i
  early : p.stopped ≡ false → 0 < left p.tasks → p.next_index ≡ n
  manned : 0 < n → 0 < length p.tasks

-- The item that is taken was not taken before.
taken_next : (k i : ℕ) → taken (k + 1) i ≡ taken k i + (if i == k then 1 else 0)
taken_next k i = ground arith

Step-Inv : {n : ℕ} {p q : Pool} → Step n p q → Inv n p → Inv n q
Step-Inv (takes p ws vs e go h) v = record {
  bounded = omega arith;
  once = λ i. omega (
    arith,
    v.once i,
    taken_next p.next_index i,
    ap (held i) e,
    held-append i ws (idle ∷ vs),
    held-append i ws (running p.next_index ∷ vs),
  );
  exact = λ s i. omega (
    arith,
    v.exact s i,
    taken_next p.next_index i,
    ap (held i) e,
    held-append i ws (idle ∷ vs),
    held-append i ws (running p.next_index ∷ vs),
  );
  early = λ s g. absurd (
      omega (
        arith,
        v.early s,
        ap left e,
        left-append ws (idle ∷ vs),
        left-append ws (running p.next_index ∷ vs),
      ));
  manned = λ m. omega (
    arith,
    v.manned m,
    ap length e,
    length-append ws (idle ∷ vs),
    length-append ws (running p.next_index ∷ vs),
  );
}
Step-Inv (returns_empty p ws vs e h) v = record {
  bounded = v.bounded;
  once = λ i.
      omega (
        arith,
        v.once i,
        ap (held i) e,
        held-append i ws (idle ∷ vs),
        held-append i ws (gone ∷ vs),
      );
  exact = λ s i. omega (
    arith,
    v.exact s i,
    ap (held i) e,
    held-append i ws (idle ∷ vs),
    held-append i ws (gone ∷ vs),
  );
  early = λ s g. omega (arith, v.bounded);
  manned = λ m.
      omega (
        arith,
        v.manned m,
        ap length e,
        length-append ws (idle ∷ vs),
        length-append ws (gone ∷ vs),
      );
}
Step-Inv (returns_stopped p ws vs e s) v = record {
  bounded = v.bounded;
  once = λ i.
      omega (
        arith,
        v.once i,
        ap (held i) e,
        held-append i ws (idle ∷ vs),
        held-append i ws (gone ∷ vs),
      );
  exact = λ s' i. cc;
  early = λ s' g. cc;
  manned = λ m.
      omega (
        arith,
        v.manned m,
        ap length e,
        length-append ws (idle ∷ vs),
        length-append ws (gone ∷ vs),
      );
}
Step-Inv (finishes p ws vs j e) v = record {
  bounded = v.bounded;
  once = λ i. omega (
    arith,
    v.once i,
    ap (held i) e,
    held-append i ws (running j ∷ vs),
    held-append i ws (idle ∷ vs),
    count-append i p.results (j ∷ []),
  );
  exact = λ s i. omega (
    arith,
    v.exact s i,
    ap (held i) e,
    held-append i ws (running j ∷ vs),
    held-append i ws (idle ∷ vs),
    count-append i p.results (j ∷ []),
  );
  early = λ s g.
      v.early s
        (omega (arith, ap left e, left-append ws (running j ∷ vs), left-append ws (idle ∷ vs)));
  manned = λ m. omega (
    arith,
    v.manned m,
    ap length e,
    length-append ws (running j ∷ vs),
    length-append ws (idle ∷ vs),
  );
}
Step-Inv (stops p) v = record {
  bounded = v.bounded;
  once = v.once;
  exact = λ s i. cc;
  early = λ s g. cc;
  manned = v.manned;
}
Step-Inv (cancels p ws vs j e s) v = record {
  bounded = v.bounded;
  once = λ i. omega (
    arith,
    v.once i,
    ap (held i) e,
    held-append i ws (running j ∷ vs),
    held-append i ws (gone ∷ vs),
  );
  exact = λ s' i. cc;
  early = λ s' g. cc;
  manned = λ m. omega (
    arith,
    v.manned m,
    ap length e,
    length-append ws (running j ∷ vs),
    length-append ws (gone ∷ vs),
  );
}

Reach-Inv : {n : ℕ} {p q : Pool} → Reach n p q → Inv n p → Inv n q
Reach-Inv here v = v
Reach-Inv (next r s) v = Step-Inv s (Reach-Inv r v)

held-replicate : (i k : ℕ) → held i (replicate k idle) ≡ 0
held-replicate i zero = refl
held-replicate i (suc k) = omega (arith, held-replicate i k)

left-replicate : (k : ℕ) → left (replicate k idle) ≡ 0
left-replicate zero = refl
left-replicate (suc k) = omega (arith, left-replicate k)

length-replicate : (k : ℕ) → length (replicate k idle) ≡ k
length-replicate zero = refl
length-replicate (suc k) = ap suc (length-replicate k)

none_taken : (i : ℕ) → taken 0 i ≡ 0
none_taken i = ground arith

start-Inv : (concurrency n : ℕ) → 1 ≤ concurrency → Inv n (start concurrency n)
start-Inv concurrency n c = record {
  bounded = omega arith;
  once = λ i. omega (arith, held-replicate i (min concurrency n), none_taken i);
  exact = λ s i. omega (arith, held-replicate i (min concurrency n), none_taken i);
  early = λ s g. absurd (omega (arith, left-replicate (min concurrency n)));
  manned = λ m. omega (arith, length-replicate (min concurrency n));
}

-- However the tasks interleave and whenever the run is stopped, no item of work is executed twice:
-- it is at most once among the results and the tasks that execute it, and only items of the work are.
pub executed_once :
    (concurrency n : ℕ) (p : Pool) (i : ℕ)
    → 1 ≤ concurrency
    → Reach n (start concurrency n) p
    → count i p.results + held i p.tasks ≤ taken n i
executed_once concurrency n p i c r =
    let v = Reach-Inv r (start-Inv concurrency n c) in ground (arith, v.once i, v.bounded)

abbrev pub IsGone : Task → Type 0
IsGone t = t ≡ gone

All-gone : (i : ℕ) (ts : List Task) → All IsGone ts → (held i ts ≡ 0) × (left ts ≡ length ts)
All-gone i [] h = (refl, refl)
All-gone i (t ∷ ts) (e, h) =
    let (none_held, all_left) = All-gone i ts h in
    (rw e (omega (arith, none_held)), rw e (omega (arith, all_left)))

finished :
    (n : ℕ) (p : Pool)
    → Inv n p
    → p.stopped ≡ false
    → left p.tasks ≡ length p.tasks
    → p.next_index ≡ n
finished zero p v s l = omega (arith, v.bounded)
finished (suc n) p v s l = v.early s (omega (arith, v.manned (omega arith)))

-- When all tasks have returned and the run was not stopped, every item of the work is among the
-- results exactly once, and nothing else is.
pub executed_every :
    (concurrency n : ℕ) (p : Pool) (i : ℕ)
    → 1 ≤ concurrency
    → Reach n (start concurrency n) p
    → p.stopped ≡ false
    → All IsGone p.tasks
    → count i p.results ≡ taken n i
executed_every concurrency n p i c r s g =
    let v = Reach-Inv r (start-Inv concurrency n c) in
    let (none_held, all_left) = All-gone i p.tasks g in
    let done : p.next_index ≡ n = finished n p v s all_left in
    omega (arith, v.exact s i, none_held, ap (λ k. taken k i) done)
