-- ===== src/Prelude/Decimal.antt =====
-- The decimal text of a number, as Rust's `Display` of an unsigned integer writes it.
use swiyu_rs.Prelude.Tests.{ltb, if◌then◌else◌}
use swiyu_rs.Prelude.Text.{Text}
use Prim.Native.Nat.{ℕ, zero, suc, ◌+◌, ◌/◌, ◌%◌}
use mathlib.Core.List.{[], ◌∷◌, ◌++◌}

-- A number has no more digits than one more than itself, so the fuel is enough.
unfoldable pub digits_of : ℕ → ℕ → Text
digits_of zero n = []
digits_of (suc fuel) n =
    let rest = digits_of fuel (n / 10) in
    if ltb n 10 then (n + b'0') ∷ [] else rest ++ (n % 10 + b'0') ∷ []

unfoldable pub decimal : ℕ → Text
unfolding digits_of
decimal n = digits_of (suc n) n
