-- ===== src/Bitops.antt =====
-- include/skp/utils/bitops.h: the position of the last bit set, and powers of two. Words are
-- numbers below 2 ^ 32 (`fls`) or 2 ^ 64 (`flsl`, `unsigned long`).
pub mod PowerOfTwo
mod Tests
use Prim.Native.Nat.{bit_and}
use skp.Common.{
  ℕ, zero, suc, ◌+◌, ◌-◌, ◌%◌, ◌^◌, Bool, ◌&&◌, Option, none, some, not, ltb, ◌==◌, if◌then◌else◌,
}

-- The compiler's `__builtin_clz` on a word of `w` bits: the zeros above the highest one.
unfoldable pub leading_zeros : ℕ → ℕ → ℕ
leading_zeros zero x = 0
leading_zeros (suc w) x = if ltb x (2 ^ w) then suc (leading_zeros w x) else 0

-- `fls`: the position of the last bit set, counted from 1, and 0 for 0.
unfoldable pub fls : ℕ → ℕ
fls x = if x == 0 then 0 else 32 - leading_zeros 32 x

-- `flsl`: the same for a 64-bit word.
unfoldable pub flsl : ℕ → ℕ
flsl x = if x == 0 then 0 else 64 - leading_zeros 64 x

unfoldable pub is_power_of_2 : ℕ → Bool
is_power_of_2 n = not (n == 0) && (bit_and n (n - 1) == 0)

-- `1UL << flsl(n - 1)`. A shift by 64 is undefined in C; the machine takes the count modulo 64.
unfoldable pub roundup_pow_of_two : ℕ → ℕ
roundup_pow_of_two n = 2 ^ (flsl ((n + 2 ^ 64 - 1) % 2 ^ 64) % 64)

-- The exponent of the least power of two that is not below v; `none` stands for -1.
unfoldable pub get_count_order : ℕ → Option ℕ
get_count_order v =
    if v == 0 then none else if not (bit_and v (v - 1) == 0) then some (fls v) else some (fls v - 1)
