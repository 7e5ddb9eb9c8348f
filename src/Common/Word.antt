-- ===== src/Common/Word.antt =====
-- Unsigned 32-bit arithmetic, which wraps around.
use Prim.Native.Nat.{ℕ, ◌+◌, ◌-◌, ◌%◌, ◌^◌}

abbrev pub u32_mod : ℕ
u32_mod = 2 ^ 32

-- `a + b` and `a - b` on uint32_t. Subtraction on ℕ stops at 0, so the modulus is added first.
abbrev pub add32 : ℕ → ℕ → ℕ
add32 a b = (a + b) % u32_mod

abbrev pub sub32 : ℕ → ℕ → ℕ
sub32 a b = (a + u32_mod - b) % u32_mod
