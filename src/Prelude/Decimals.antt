-- ===== src/Prelude/Decimals.antt =====
-- `String(n)` for a natural number: its decimal digits.
use Prim.Native.Nat.{ℕ, zero, suc, ◌+◌, ◌/◌, ◌%◌}
use mathlib.Core.List.{[], ◌∷◌, ◌++◌}
use agent_monitors.Prelude.Tests.{ltb, if◌then◌else◌}
use agent_monitors.Prelude.Texts.{Text}

-- The digits above the last come first; a number has at most as many digits as the fuel.
unfoldable pub decimal_upto : ℕ → ℕ → Text
decimal_upto zero n = []
decimal_upto (suc fuel) n =
    let upper = decimal_upto fuel (n / 10) in
    if ltb n 10 then (48 + n) ∷ [] else upper ++ (48 + n % 10) ∷ []

unfoldable pub decimal : ℕ → Text
unfolding decimal_upto
decimal n = decimal_upto (suc n) n
