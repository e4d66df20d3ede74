-- ===== src/Prelude/Decimal.antt =====
-- `to_string` of an unsigned integer.
use Prim.Native.Nat.{ℕ, zero, suc, ◌/◌, ◌%◌}
use Prim.Native.String.{String, ◌++◌}
use mathlib.Core.Bool.{true, false}
use mathlib.Core.Option.{none, some}
use mathlib.Core.List.{List, [], ◌∷◌}
use fusotao_rust_client.Prelude.Tests.{ltb}
use fusotao_rust_client.Prelude.Lists.{get_elem?}

abbrev digits : List String
digits = "0" ∷ "1" ∷ "2" ∷ "3" ∷ "4" ∷ "5" ∷ "6" ∷ "7" ∷ "8" ∷ "9" ∷ []

digit : ℕ → String
digit n = elim (get_elem? digits n) [ none ↦ "" | some s ↦ s ]

decimal : ℕ → ℕ → String
decimal zero n = ""
decimal (suc places) n = elim (ltb n 10) [
  | true ↦ digit n
  | false ↦ decimal places (n / 10) ++ digit (n % 10)
]

-- Forty places are enough for any `u128`.
unfoldable pub to_string : ℕ → String
unfolding digit decimal
to_string n = decimal 40 n
