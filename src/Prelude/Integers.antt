-- ===== src/Prelude/Integers.antt =====
-- Integers over the native numbers, and the wrap-around of 64 bits.
use Prim.Native.Nat.{ℕ, zero, suc, ◌-◌, ◌*◌, ◌%◌}
use mathlib.Core.Bool.{Bool, true, false}
use auth_proxy.Prelude.Tests.{ltb, leb, if◌then◌else◌}

-- `negsuc n` is -(n + 1).
pub data ℤ : Type 0 where
  pos negsuc : ℕ → ℤ

unfoldable pub is_positive : ℤ → Bool
is_positive (pos zero) = false
is_positive (pos (suc n)) = true
is_positive (negsuc n) = false

-- `a <= b`
unfoldable pub leb_int : ℤ → ℤ → Bool
leb_int (pos a) (pos b) = leb a b
leb_int (pos a) (negsuc b) = false
leb_int (negsuc a) (pos b) = true
leb_int (negsuc a) (negsuc b) = leb b a

-- The `int64` with the bits of a number.
unfoldable pub int64 : ℕ → ℤ
int64 n =
    let bits = n % 18446744073709551616 in
    if ltb bits 9223372036854775808 then pos bits else negsuc (18446744073709551615 - bits)

-- The product of an `int64` and a number, which wraps around.
unfoldable pub times : ℤ → ℕ → ℤ
unfolding int64
times (pos n) m = int64 (n * m)
times (negsuc n) m = int64 (18446744073709551616 - suc n * m % 18446744073709551616)
