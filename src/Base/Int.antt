-- ===== src/Base/Int.antt =====
-- The C type `int`, where a value may be negative: descriptors, channels, thresholds.
use Prim.Native.Nat.{ℕ, ◌-◌, ◌%◌}
use mathlib.Core.Bool.{Bool, false}
use libtta.Base.Tests.{◌==◌}

-- `negsuc n` is -(n + 1).
pub data ℤ : Type 0 where
  pos : ℕ → ℤ
  negsuc : ℕ → ℤ

abbrev pub minus_one : ℤ
minus_one = negsuc 0

abbrev pub is_minus_one : ℤ → Bool
is_minus_one (pos _) = false
is_minus_one (negsuc n) = n == 0

-- `(uint8_t)(signed char)x`: the low eight bits in two's complement.
abbrev pub int_to_u8 : ℤ → ℕ
int_to_u8 (pos n) = n % 256
int_to_u8 (negsuc n) = 255 - n % 256

-- `x == k` for a constant `k` of the source.
abbrev pub int_is : ℤ → ℕ → Bool
int_is (pos n) k = n == k
int_is (negsuc n) k = false
