-- ===== src/Prelude/Int.antt =====
-- Signed integers over the native numbers: `int64` fields, before any wrap-around.
use Prim.Native.Nat.{ℕ, suc, ◌+◌, ◌-◌, ◌*◌, ◌%◌, ◌^◌}
use mathlib.Core.Bool.{Bool, true, false}
use aetheria.Prelude.Tests.{ltb, if◌then◌else◌}

-- `negsuc n` is -(n + 1).
pub data ℤ : Type 0 where
  pos : ℕ → ℤ
  negsuc : ℕ → ℤ

-- `n == 0`
abbrev pub is_zero : ℤ → Bool
is_zero (pos ℕ.zero) = true
is_zero (pos (suc n)) = false
is_zero (negsuc n) = false

-- `n > 0`
abbrev pub is_positive : ℤ → Bool
is_positive (pos ℕ.zero) = false
is_positive (pos (suc n)) = true
is_positive (negsuc n) = false

-- The integer that a 64-bit pattern stands for.
abbrev pub signed64 : ℕ → ℤ
signed64 w = if ltb w (2 ^ 63) then pos w else negsuc (2 ^ 64 - w - 1)

-- `n * m` on int64, for a factor that is not negative: the product wraps around.
abbrev pub mul64 : ℤ → ℕ → ℤ
mul64 (pos n) m = signed64 ((n * m) % 2 ^ 64)
mul64 (negsuc n) m = signed64 ((2 ^ 64 - ((n + 1) * m) % 2 ^ 64) % 2 ^ 64)
