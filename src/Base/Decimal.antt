-- ===== src/Base/Decimal.antt =====
-- The decimal text of an integer.
use Prim.Native.Nat.{ℕ, zero, suc, ◌+◌, ◌/◌, ◌%◌}
use mathlib.Core.List.{[], ◌∷◌}
use asusrouter.Base.Tests.{ltb, if◌then◌else◌}
use asusrouter.Base.Int.{ℤ, pos, negsuc}
use asusrouter.Base.Text.{Text}

-- `str(n)`, with the fuel `n + 1`.
unfoldable pub digits : ℕ → ℕ → Text → Text
digits zero n acc = acc
digits (suc fuel) n acc =
    let rest = digits fuel (n / 10) ((b'0' + n % 10) ∷ acc) in
    if ltb n 10 then (b'0' + n) ∷ acc else rest

unfoldable pub show_int : ℤ → Text
unfolding digits
show_int (pos n) = digits (suc n) n []
show_int (negsuc n) = b'-' ∷ digits (suc (suc n)) (suc n) []
