-- ===== src/Common/Bits.antt =====
-- Laws of `&` on numbers of any width, from the digit recursion that the native operation stands
-- for: one digit at a time, masks of ones, and powers of two.
use Prim.Native.Nat.{
  ℕ, zero, suc, ◌+◌, ◌-◌, ◌*◌, ◌/◌, ◌%◌, ◌^◌, ◌≤◌, ◌<◌, ◌∣◌, min, bit_and, digits, bit_and-bitwise,
}
use mathlib.Core.Path.{◌≡◌, refl, sym, ap, ap₂, ◌∙◌}
use mathlib.Core.Logic.{◌≢◌}
use native.Mathlib.Omega.{arith}
use native.Mathlib.Decide.{ℕ_discrete}
use native.Mathlib.Nat.{
  pow-suc, add-zero, add-suc, dvd_refl, dvd-mul_right_of_dvd, mul-add-mod_self_left, mod-eq_of_lt,
  mod-lt, div-add-mod, mod_self,
}

-- The fuel of the digit recursion does not matter once it reaches the left operand.
and_fuel :
    (m n a b : ℕ) → a ≤ m → a ≤ n → digits (λ b. zero) min m a b ≡ digits (λ b. zero) min n a b
and_fuel m n zero b p q = zero_left m ∙ sym (zero_left n)
  where
    zero_left : (k : ℕ) → digits (λ b. zero) min k zero b ≡ zero
    zero_left zero = refl
    zero_left (suc k) = refl
and_fuel zero n (suc a) b p q = absurd (omega arith)
and_fuel (suc m) zero (suc a) b p q = absurd (omega arith)
and_fuel (suc m) (suc n) (suc a) b p q =
    omega (arith, and_fuel m n (suc a / 2) (b / 2) (omega arith) (omega arith))

pub zero-bit_and : (b : ℕ) → bit_and 0 b ≡ 0
zero-bit_and b = bit_and-bitwise 0 b

-- The lowest digit, and the rest.
pub bit_and_unfold : (a b : ℕ) → bit_and a b ≡ bit_and (a / 2) (b / 2) * 2 + min (a % 2) (b % 2)
bit_and_unfold zero b = omega (arith, zero-bit_and b, zero-bit_and (b / 2))
bit_and_unfold (suc a) b = omega (
  arith,
  bit_and-bitwise (suc a) b,
  bit_and-bitwise (suc a / 2) (b / 2),
  and_fuel a (suc a / 2) (suc a / 2) (b / 2) (omega arith) (omega arith),
)

-- Two numbers written by their lowest digits.
pub bit_and_digits :
    (c d x y : ℕ) → x < 2 → y < 2 → bit_and (c * 2 + x) (d * 2 + y) ≡ bit_and c d * 2 + min x y
bit_and_digits c d x y hx hy =
    bit_and_unfold (c * 2 + x) (d * 2 + y)
    ∙ parts _ _ _ _ (omega arith) (omega arith) (omega arith) (omega arith)
  where
    parts :
        (p q r s : ℕ)
        → p ≡ c
        → q ≡ d
        → r ≡ x
        → s ≡ y
        → bit_and p q * 2 + min r s ≡ bit_and c d * 2 + min x y
    parts p q r s e f g h = rw (e, f, g, h)

pub pow_pos : (k : ℕ) → 0 < 2 ^ k
pow_pos zero = omega arith
pow_pos (suc k) = omega (arith, pow-suc 2 k, pow_pos k)

-- Twice the modulus keeps one more digit.
pub mod_double : (a n : ℕ) → 0 < n → a % (n * 2) ≡ (a / 2) % n * 2 + a % 2
mod_double a n h =
    ap (λ t. t % (n * 2)) split
    ∙ mul-add-mod_self_left (n * 2) (a / 2 / n) ((a / 2) % n * 2 + a % 2)
    ∙ mod-eq_of_lt (omega (arith, mod-lt (a / 2) h))
  where
    split : a ≡ n * 2 * (a / 2 / n) + ((a / 2) % n * 2 + a % 2)
    split = omega (arith, ap (λ (t : ℕ). t * 2) (div-add-mod (a / 2) n))

bit_and-zero_below : (n a : ℕ) → a ≤ n → bit_and a 0 ≡ 0
bit_and-zero_below n zero h = zero-bit_and 0
bit_and-zero_below zero (suc a) h = absurd (omega arith)
bit_and-zero_below (suc n) (suc a) h =
    omega (arith, bit_and_unfold (suc a) 0, bit_and-zero_below n (suc a / 2) (omega arith))

pub bit_and-zero : (a : ℕ) → bit_and a 0 ≡ 0
bit_and-zero a = bit_and-zero_below a a (omega arith)

-- Masking with 2^k - 1 is the remainder by 2^k.
pub bit_and_mask : (k a : ℕ) → bit_and a (2 ^ k - 1) ≡ a % 2 ^ k
bit_and_mask zero a = omega (arith, bit_and-zero a)
bit_and_mask (suc k) a =
    ap₂ bit_and low ones
    ∙ bit_and_digits (a / 2) (2 ^ k - 1) (a % 2) 1 (omega arith) (omega arith)
    ∙ omega (arith, bit_and_mask k (a / 2), mod_double a (2 ^ k) (pow_pos k), pow-suc 2 k, same)
  where
    low : a ≡ a / 2 * 2 + a % 2
    low = omega arith

    ones : 2 ^ suc k - 1 ≡ (2 ^ k - 1) * 2 + 1
    ones = omega (arith, pow-suc 2 k, pow_pos k)

    same : a % 2 ^ suc k ≡ a % (2 ^ k * 2)
    same = ap (λ (t : ℕ). a % t) (pow-suc 2 k)

-- Clearing the two lowest bits of a 32-bit value rounds it down to a multiple of four.
pub bit_and_quads : (a : ℕ) → a < 2 ^ 32 → bit_and a (2 ^ 32 - 4) ≡ a / 4 * 4
bit_and_quads a h = omega (
  arith,
  bit_and_unfold a (2 ^ 32 - 4),
  bit_and_unfold (a / 2) (2 ^ 31 - 2),
  bit_and_mask 30 (a / 2 / 2),
)

-- The low bit of n - 1 is the complement of that of n, so n & (n - 1) loses the lowest one bit.
and_pred_even : (m : ℕ) → 0 < m → bit_and (m * 2) (m * 2 - 1) ≡ bit_and m (m - 1) * 2
and_pred_even m h =
    ap₂ bit_and (sym (add-zero (m * 2))) ones
    ∙ bit_and_digits m (m - 1) 0 1 (omega arith) (omega arith)
    ∙ add-zero (bit_and m (m - 1) * 2)
  where
    ones : m * 2 - 1 ≡ (m - 1) * 2 + 1
    ones = omega arith

bit_and_self_below : (n a : ℕ) → a ≤ n → bit_and a a ≡ a
bit_and_self_below n zero h = zero-bit_and 0
bit_and_self_below zero (suc a) h = absurd (omega arith)
bit_and_self_below (suc n) (suc a) h =
    omega (arith, bit_and_unfold (suc a) (suc a), bit_and_self_below n (suc a / 2) (omega arith))

and_pred_odd : (m : ℕ) → bit_and (m * 2 + 1) (m * 2) ≡ m * 2
and_pred_odd m =
    ap (bit_and (m * 2 + 1)) (sym (add-zero (m * 2)))
    ∙ bit_and_digits m m 1 0 (omega arith) (omega arith)
    ∙ omega (arith, bit_and_self_below m m (omega arith))

pub pow_two-and_pred : (k : ℕ) → bit_and (2 ^ k) (2 ^ k - 1) ≡ 0
pow_two-and_pred k = bit_and_mask k (2 ^ k) ∙ mod_self (2 ^ k)

-- A positive n with n & (n - 1) = 0 is a power of two: halve it while it is even.
and_pred_below : (f n : ℕ) → n ≤ f → 0 < n → bit_and n (n - 1) ≡ 0 → (k : ℕ) × (n ≡ 2 ^ k)
and_pred_below zero n le pos e = absurd (omega arith)
and_pred_below (suc f) n le pos e = elim (ℕ_discrete (n % 2) 0) [
  | yes even ↦
      let (k, h) = and_pred_below f (n / 2) (omega arith) (omega arith) (halved even) in
      (suc k, omega (arith, pow-suc 2 k))
  | no odd ↦ (0, omega (arith, and_pred_odd (n / 2), stays odd))
]
  where
    halved : n % 2 ≡ 0 → bit_and (n / 2) (n / 2 - 1) ≡ 0
    halved even =
        let twice : n ≡ n / 2 * 2 = omega arith in
        omega (arith, and_pred_even (n / 2) (omega arith), ap (λ (t : ℕ). bit_and t (t - 1)) twice)

    stays : n % 2 ≢ 0 → bit_and (n / 2 * 2 + 1) (n / 2 * 2) ≡ 0
    stays odd =
        let twice : n ≡ n / 2 * 2 + 1 = omega arith in
        let less : n - 1 ≡ n / 2 * 2 = omega arith in ap₂ bit_and (sym twice) (sym less) ∙ e

pub pow_two_of-and_pred : (n : ℕ) → 0 < n → bit_and n (n - 1) ≡ 0 → (k : ℕ) × (n ≡ 2 ^ k)
pow_two_of-and_pred n = and_pred_below n n (omega arith)

-- A smaller power of two divides a larger one.
pub pow-dvd-pow : (k d : ℕ) → 2 ^ k ∣ 2 ^ (k + d)
pow-dvd-pow k zero = rw add-zero (dvd_refl (2 ^ k))
pow-dvd-pow k (suc d) =
    rw (add-suc k d, pow-suc 2 (k + d)) (dvd-mul_right_of_dvd (2 ^ k) (pow-dvd-pow k d) 2)

-- Shifting to the left goes through `&`.
pub bit_and-mul_pow : (k a b : ℕ) → bit_and (a * 2 ^ k) (b * 2 ^ k) ≡ bit_and a b * 2 ^ k
bit_and-mul_pow zero a b =
    let x : a * 2 ^ 0 ≡ a = omega arith in
    let y : b * 2 ^ 0 ≡ b = omega arith in ap₂ bit_and x y ∙ omega arith
bit_and-mul_pow (suc k) a b =
    ap₂ bit_and (more a) (more b)
    ∙ bit_and_digits (a * 2 ^ k) (b * 2 ^ k) 0 0 (omega arith) (omega arith)
    ∙ omega (arith, bit_and-mul_pow k a b, more (bit_and a b))
  where
    more : (n : ℕ) → n * 2 ^ suc k ≡ n * 2 ^ k * 2 + 0
    more n = grind (arith, pow-suc 2 k)

pub bit_and_self : (a : ℕ) → bit_and a a ≡ a
bit_and_self a = self_below a a (omega arith)
  where
    self_below : (n a : ℕ) → a ≤ n → bit_and a a ≡ a
    self_below n zero p = zero-bit_and 0
    self_below zero (suc a) p = absurd (omega arith)
    self_below (suc n) (suc a) p =
        omega (arith, bit_and_unfold (suc a) (suc a), self_below n (suc a / 2) (omega arith))
