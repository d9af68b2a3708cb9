-- ===== src/Base/Decimal.antt =====
-- `%d` of a number that fits 64 bits. Twenty rounds of the digit loop are enough, since 10 ^ 20 is
-- above 2 ^ 64.
use Prim.Native.Nat.{ℕ, zero, suc, ◌+◌, ◌/◌, ◌%◌}
use mathlib.Core.List.{[], ◌∷◌}
use dockup.Base.Tests.{◌==◌, if◌then◌else◌}
use dockup.Base.Text.{Str}

digits_from : ℕ → ℕ → Str → Str
digits_from zero n out = out
digits_from (suc fuel) n out =
    let rest = digits_from fuel (n / 10) ((b'0' + n % 10) ∷ out) in if n == 0 then out else rest

unfoldable pub decimal : ℕ → Str
unfolding digits_from
decimal n = if n == 0 then b'0' ∷ [] else digits_from 20 n []
