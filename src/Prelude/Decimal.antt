-- ===== src/Prelude/Decimal.antt =====
-- `str(n)` for a natural, and `"\x00".join(...)`.
use Prim.Native.Nat.{ℕ, zero, suc, ◌/◌, ◌%◌}
use Prim.Native.Char.{nul}
use Prim.Native.String.{String, ◌++◌}
use mathlib.Core.Bool.{true, false}
use mathlib.Core.Option.{none, some}
use mathlib.Core.List.{List, [], ◌∷◌}
use agent_storm.Prelude.Tests.{ltb}
use agent_storm.Prelude.Lists.{get_elem?}

abbrev numerals : List String
numerals = "0" ∷ "1" ∷ "2" ∷ "3" ∷ "4" ∷ "5" ∷ "6" ∷ "7" ∷ "8" ∷ "9" ∷ []

digit : ℕ → String
digit n = elim (get_elem? numerals n) [ some s ↦ s | none ↦ "" ]

-- The fuel is the number of digits at most.
decimal_digits : ℕ → ℕ → String
decimal_digits zero n = ""
decimal_digits (suc fuel) n = elim (ltb n 10) [
  | true ↦ digit n
  | false ↦ decimal_digits fuel (n / 10) ++ digit (n % 10)
]

unfoldable pub decimal : ℕ → String
unfolding decimal_digits digit
decimal n = decimal_digits (suc n) n

-- `"\x00".join(parts)`
unfoldable pub join_nul : List String → String
join_nul [] = ""
join_nul (s ∷ []) = s
join_nul (s ∷ t ∷ rest) = s ++ (String.◌∷◌ nul (join_nul (t ∷ rest)))
