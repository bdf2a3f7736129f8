-- ===== src/Runner/Shards.antt =====
-- runner.py: the choice of cases and the list of work at the start of `WorkloadRunner.execute`.
pub mod Partition
use agent_storm.Prelude.{
  ℕ, zero, suc, ◌+◌, ◌%◌, Bool, true, false, ◌&&◌, Option, none, some, List, [], ◌∷◌, ◌++◌, ◌==◌,
  leb, ltb, map, if◌then◌else◌,
}

-- The test of `__init__`.
unfoldable pub is_valid_shard : (shard_index shard_count : ℕ) → Bool
is_valid_shard shard_index shard_count = leb 1 shard_count && ltb shard_index shard_count

module _ {A : Type 0} (shard_count : ℕ) where
  -- `[case for index, case in enumerate(cases) if index % shard_count == shard_index]`, from `index`.
  unfoldable pub select_from : (shard_index index : ℕ) → List A → List A
  select_from shard_index index [] = []
  select_from shard_index index (test ∷ cases) =
      let rest = select_from shard_index (suc index) cases in
      if index % shard_count == shard_index then test ∷ rest else rest

  unfoldable pub selected : ℕ → List A → List A
  unfolding select_from
  selected shard_index cases = select_from shard_index 0 cases

-- `for iteration in range(iterations) for case in selected`, from `iteration`.
work_from : {A : Type 0} → ℕ → (rounds : ℕ) → List A → List (A × ℕ)
work_from iteration zero cases = []
work_from iteration (suc rounds) cases =
    map (λ test. (test, iteration)) cases ++ work_from (suc iteration) rounds cases

unfoldable pub work : {A : Type 0} → (iterations : ℕ) → List A → List (A × ℕ)
unfolding work_from
work iterations cases = work_from 0 iterations cases
