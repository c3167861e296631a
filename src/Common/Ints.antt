-- ===== src/Common/Ints.antt =====
-- Go's integers. A configuration bound, which the code compares and never adds up, is a ℤ.
-- A token count is an `Int64`: the bit pattern of a 64-bit `int`, whose sums wrap around.
use Prim.Native.Nat.{ℕ, ◌+◌, ◌-◌, ◌%◌}
use mathlib.Core.Bool.{Bool, true}
use golm.Common.Tests.{ltb, leb}

-- `negsuc n` is -(n + 1).
pub data ℤ : Type 0 where
  pos : ℕ → ℤ
  negsuc : ℕ → ℤ

-- `b <= 0` on a configuration bound.
abbrev pub le_zero : ℤ → Bool
le_zero (pos n) = leb n 0
le_zero (negsuc n) = true

abbrev pub Int64 : Type 0
Int64 = ℕ

abbrev pub int_mod : ℕ
int_mod = 18446744073709551616

abbrev pub int_half : ℕ
int_half = 9223372036854775808

-- `a + b` and `a - b` on `int`.
abbrev pub add_int : Int64 → Int64 → Int64
add_int a b = (a + b) % int_mod

abbrev pub sub_int : Int64 → Int64 → Int64
sub_int a b = (a + int_mod - b) % int_mod

-- The order of signed integers is the order of the patterns with the sign bit flipped.
abbrev pub bias : Int64 → ℕ
bias a = (a + int_half) % int_mod

abbrev pub lt_int : Int64 → Int64 → Bool
lt_int a b = ltb (bias a) (bias b)

abbrev pub le_int : Int64 → Int64 → Bool
le_int a b = leb (bias a) (bias b)
