-- ===== src/Common/Or.antt =====
-- The width of `|` and `&`.
use Prim.Native.Nat.{
  ℕ, zero, suc, ◌+◌, ◌*◌, ◌/◌, ◌%◌, ◌^◌, ◌≤◌, ◌<◌, max, bit_and, bit_or, digits, bit_or-bitwise,
}
use mathlib.Core.Path.{◌≡◌, refl, sym, ap, ◌∙◌}
use native.Mathlib.Omega.{arith}
use native.Mathlib.Nat.{pow-suc}
use skp.Common.Bits.{bit_and_unfold, zero-bit_and}

-- The fuel of the digit recursion does not matter once it reaches the left operand.
or_fuel : (m n a b : ℕ) → a ≤ m → a ≤ n → digits (λ b. b) max m a b ≡ digits (λ b. b) max n a b
or_fuel zero zero a b p q = refl
or_fuel zero (suc n) zero b p q = refl
or_fuel zero (suc n) (suc a) b p q = absurd (omega arith)
or_fuel (suc m) zero zero b p q = refl
or_fuel (suc m) zero (suc a) b p q = absurd (omega arith)
or_fuel (suc m) (suc n) zero b p q = refl
or_fuel (suc m) (suc n) (suc a) b p q =
    ap (λ t. t * 2 + max (suc a % 2) (b % 2))
      (or_fuel m n (suc a / 2) (b / 2) (omega arith) (omega arith))

zero-bit_or : (b : ℕ) → bit_or 0 b ≡ b
zero-bit_or b = bit_or-bitwise 0 b

-- The lowest digit, and the rest.
bit_or_unfold : (a b : ℕ) → bit_or a b ≡ bit_or (a / 2) (b / 2) * 2 + max (a % 2) (b % 2)
bit_or_unfold zero b = omega (arith, zero-bit_or b, zero-bit_or (b / 2))
bit_or_unfold (suc a) b =
    bit_or-bitwise (suc a) b
    ∙ ap (λ t. t * 2 + max (suc a % 2) (b % 2))
        (or_fuel a (suc a / 2) (suc a / 2) (b / 2) (omega arith) (omega arith)
          ∙ sym (bit_or-bitwise (suc a / 2) (b / 2)))

-- `|` has no more digits than its operands.
pub bit_or-lt : (k a b : ℕ) → a < 2 ^ k → b < 2 ^ k → bit_or a b < 2 ^ k
bit_or-lt zero a b p q =
    let none : a ≡ 0 = omega arith in omega (arith, ap (λ t. bit_or t b) none, zero-bit_or b)
bit_or-lt (suc k) a b p q =
    let half : bit_or (a / 2) (b / 2) < 2 ^ k =
      bit_or-lt k (a / 2) (b / 2) (omega (arith, p, pow-suc 2 k)) (omega (arith, q, pow-suc 2 k)) in
    omega (arith, bit_or_unfold a b, half, pow-suc 2 k)

-- `&` is not above its left operand.
and_le_below : (n a b : ℕ) → a ≤ n → bit_and a b ≤ a
and_le_below n zero b p = omega (arith, zero-bit_and b)
and_le_below zero (suc a) b p = absurd (omega arith)
and_le_below (suc n) (suc a) b p =
    omega (arith, bit_and_unfold (suc a) b, and_le_below n (suc a / 2) (b / 2) (omega arith))

pub bit_and-le : (a b : ℕ) → bit_and a b ≤ a
bit_and-le a b = and_le_below a a b (omega arith)
