-- ===== src/Common/Xor.antt =====
-- Laws of `^` on numbers of any width, one binary digit at a time.
use Prim.Native.Nat.{
  ℕ, zero, suc, ◌+◌, ◌*◌, ◌/◌, ◌%◌, ◌^◌, ◌≤◌, ◌<◌, bit_xor, digits, differ, bit_xor-bitwise,
}
use mathlib.Core.Path.{◌≡◌, refl, sym, ap, ap₂, ◌∙◌}
use skp.Common.Bits.{mod_double, pow_pos}
use native.Mathlib.Omega.{arith}
use native.Mathlib.Nat.{pow-suc, pow-succ', mul_assoc, div-div-eq-div-mul}

-- The fuel of the digit recursion does not matter once it reaches the left operand.
xor_fuel :
    (m n a b : ℕ) → a ≤ m → a ≤ n → digits (λ b. b) differ m a b ≡ digits (λ b. b) differ n a b
xor_fuel zero zero a b p q = refl
xor_fuel zero (suc n) zero b p q = refl
xor_fuel zero (suc n) (suc a) b p q = absurd (omega arith)
xor_fuel (suc m) zero zero b p q = refl
xor_fuel (suc m) zero (suc a) b p q = absurd (omega arith)
xor_fuel (suc m) (suc n) zero b p q = refl
xor_fuel (suc m) (suc n) (suc a) b p q =
    ap (λ t. t * 2 + differ (suc a % 2) (b % 2))
      (xor_fuel m n (suc a / 2) (b / 2) (omega arith) (omega arith))

pub zero-bit_xor : (b : ℕ) → bit_xor 0 b ≡ b
zero-bit_xor b = bit_xor-bitwise 0 b

zero-differ : (y : ℕ) → differ 0 y ≡ y
zero-differ y = refl

-- The lowest digit, and the rest.
bit_xor_unfold : (a b : ℕ) → bit_xor a b ≡ bit_xor (a / 2) (b / 2) * 2 + differ (a % 2) (b % 2)
bit_xor_unfold zero b = omega (arith, zero-bit_xor b, zero-bit_xor (b / 2), zero-differ (b % 2))
bit_xor_unfold (suc a) b =
    bit_xor-bitwise (suc a) b
    ∙ ap (λ t. t * 2 + differ (suc a % 2) (b % 2))
        (xor_fuel a (suc a / 2) (suc a / 2) (b / 2) (omega arith) (omega arith)
          ∙ sym (bit_xor-bitwise (suc a / 2) (b / 2)))

-- Two numbers written by their lowest digits.
pub bit_xor_digits :
    (c d x y : ℕ) → x < 2 → y < 2 → bit_xor (c * 2 + x) (d * 2 + y) ≡ bit_xor c d * 2 + differ x y
bit_xor_digits c d x y hx hy =
    bit_xor_unfold (c * 2 + x) (d * 2 + y)
    ∙ parts ((c * 2 + x) / 2) ((d * 2 + y) / 2) ((c * 2 + x) % 2) ((d * 2 + y) % 2) (omega arith)
        (omega arith) (omega arith) (omega arith)
  where
    parts :
        (p q r s : ℕ)
        → p ≡ c
        → q ≡ d
        → r ≡ x
        → s ≡ y
        → bit_xor p q * 2 + differ r s ≡ bit_xor c d * 2 + differ x y
    parts p q r s e f g h = rw (e, f, g, h)

-- one digit
differ-lt : (x y : ℕ) → x < 2 → y < 2 → differ x y < 2
differ-lt zero y p q = q
differ-lt (suc zero) zero p q = p
differ-lt (suc zero) (suc zero) p q = omega arith
differ-lt (suc zero) (suc (suc y)) p q = absurd (omega arith)
differ-lt (suc (suc x)) y p q = absurd (omega arith)

differ_comm : (x y : ℕ) → x < 2 → y < 2 → differ x y ≡ differ y x
differ_comm zero zero p q = refl
differ_comm zero (suc y) p q = refl
differ_comm (suc x) zero p q = refl
differ_comm (suc zero) (suc zero) p q = refl
differ_comm (suc zero) (suc (suc y)) p q = absurd (omega arith)
differ_comm (suc (suc x)) (suc y) p q = absurd (omega arith)

differ_assoc : (x y z : ℕ) → x < 2 → y < 2 → z < 2 → differ (differ x y) z ≡ differ x (differ y z)
differ_assoc zero y z p q r = refl
differ_assoc (suc zero) zero z p q r = refl
differ_assoc (suc zero) (suc zero) zero p q r = refl
differ_assoc (suc zero) (suc zero) (suc zero) p q r = refl
differ_assoc (suc zero) (suc zero) (suc (suc z)) p q r = absurd (omega arith)
differ_assoc (suc zero) (suc (suc y)) z p q r = absurd (omega arith)
differ_assoc (suc (suc x)) y z p q r = absurd (omega arith)

differ_self : (x : ℕ) → differ x x ≡ 0
differ_self zero = refl
differ_self (suc x) = differ_self x

-- A law that holds for 0 and for one more digit holds: `n` bounds the numbers.
xor_comm_below : (n a b : ℕ) → a ≤ n → b ≤ n → bit_xor a b ≡ bit_xor b a
xor_comm_below zero a b p q = ap₂ bit_xor {x = a} {y = b} (omega arith) (omega arith)
xor_comm_below (suc n) a b p q =
    bit_xor_unfold a b
    ∙ ap₂ (λ s t. s * 2 + t) (xor_comm_below n (a / 2) (b / 2) (omega arith) (omega arith))
        (differ_comm (a % 2) (b % 2) (omega arith) (omega arith))
    ∙ sym (bit_xor_unfold b a)

pub xor_comm : (a b : ℕ) → bit_xor a b ≡ bit_xor b a
xor_comm a b = xor_comm_below (a + b) a b (omega arith) (omega arith)

-- The digits of a result are those that were written.
xor_halves : (a b : ℕ) → bit_xor a b / 2 ≡ bit_xor (a / 2) (b / 2)
xor_halves a b =
    let lt : differ (a % 2) (b % 2) < 2 = differ-lt (a % 2) (b % 2) (omega arith) (omega arith) in
    omega (arith, bit_xor_unfold a b, lt)

xor_lowest : (a b : ℕ) → bit_xor a b % 2 ≡ differ (a % 2) (b % 2)
xor_lowest a b =
    let lt : differ (a % 2) (b % 2) < 2 = differ-lt (a % 2) (b % 2) (omega arith) (omega arith) in
    omega (arith, bit_xor_unfold a b, lt)

xor_assoc_below : (n a b c : ℕ) → a ≤ n → bit_xor (bit_xor a b) c ≡ bit_xor a (bit_xor b c)
xor_assoc_below zero zero b c p =
    ap (λ t. bit_xor t c) (zero-bit_xor b) ∙ sym (zero-bit_xor (bit_xor b c))
xor_assoc_below zero (suc a) b c p = absurd (omega arith)
xor_assoc_below (suc n) a b c p =
    bit_xor_unfold (bit_xor a b) c
    ∙ ap₂ (λ s t. bit_xor s (c / 2) * 2 + differ t (c % 2)) (xor_halves a b) (xor_lowest a b)
    ∙ ap₂ (λ s t. s * 2 + t) (xor_assoc_below n (a / 2) (b / 2) (c / 2) (omega arith))
        (differ_assoc (a % 2) (b % 2) (c % 2) (omega arith) (omega arith) (omega arith))
    ∙ sym (ap₂ (λ s t. bit_xor (a / 2) s * 2 + differ (a % 2) t) (xor_halves b c) (xor_lowest b c))
    ∙ sym (bit_xor_unfold a (bit_xor b c))

pub xor_assoc : (a b c : ℕ) → bit_xor (bit_xor a b) c ≡ bit_xor a (bit_xor b c)
xor_assoc a b c = xor_assoc_below a a b c (omega arith)

xor_self_below : (n a : ℕ) → a ≤ n → bit_xor a a ≡ 0
xor_self_below zero zero p = zero-bit_xor 0
xor_self_below zero (suc a) p = absurd (omega arith)
xor_self_below (suc n) a p =
    omega (arith, bit_xor_unfold a a, xor_self_below n (a / 2) (omega arith), differ_self (a % 2))

pub xor_self : (a : ℕ) → bit_xor a a ≡ 0
xor_self a = xor_self_below a a (omega arith)

pub bit_xor-zero : (a : ℕ) → bit_xor a 0 ≡ a
bit_xor-zero a = xor_comm a 0 ∙ zero-bit_xor a

-- `^` with the same number again takes it back.
pub xor_cancel : (a b : ℕ) → bit_xor (bit_xor a b) b ≡ a
xor_cancel a b = xor_assoc a b b ∙ ap (bit_xor a) (xor_self b) ∙ bit_xor-zero a

-- `^` has no more digits than its operands.
pub bit_xor-lt : (k a b : ℕ) → a < 2 ^ k → b < 2 ^ k → bit_xor a b < 2 ^ k
bit_xor-lt zero zero zero p q = omega (arith, zero-bit_xor 0)
bit_xor-lt zero zero (suc b) p q = absurd (omega arith)
bit_xor-lt zero (suc a) b p q = absurd (omega arith)
bit_xor-lt (suc k) a b p q =
    let low : differ (a % 2) (b % 2) < 2 = differ-lt (a % 2) (b % 2) (omega arith) (omega arith) in
    let half : bit_xor (a / 2) (b / 2) < 2 ^ k =
      bit_xor-lt k (a / 2) (b / 2) (omega (arith, p, pow-suc 2 k))
        (omega (arith, q, pow-suc 2 k)) in
    omega (arith, bit_xor_unfold a b, low, half, pow-suc 2 k)

-- one digit more
mul_pow_suc : (k n : ℕ) → n * 2 ^ suc k ≡ n * 2 ^ k * 2
mul_pow_suc k n = ap (λ t. n * t) (pow-suc 2 k) ∙ sym (mul_assoc n (2 ^ k) 2)

-- Dividing by a power of two goes through `^`.
pub xor-div_pow : (k a b : ℕ) → bit_xor a b / 2 ^ k ≡ bit_xor (a / 2 ^ k) (b / 2 ^ k)
xor-div_pow zero a b =
    let x : a / 2 ^ 0 ≡ a = omega arith in
    let y : b / 2 ^ 0 ≡ b = omega arith in omega arith ∙ sym (ap₂ bit_xor x y)
xor-div_pow (suc k) a b =
    halve (bit_xor a b)
    ∙ ap (λ t. t / 2 ^ k) (xor_halves a b)
    ∙ xor-div_pow k (a / 2) (b / 2)
    ∙ sym (ap₂ bit_xor (halve a) (halve b))
  where
    halve : (n : ℕ) → n / 2 ^ suc k ≡ n / 2 / 2 ^ k
    halve n = ap (λ t. n / t) (pow-succ' 2 k) ∙ sym (div-div-eq-div-mul n 2 (2 ^ k))

-- So does the remainder.
pub xor-mod_pow : (k a b : ℕ) → bit_xor a b % 2 ^ k ≡ bit_xor (a % 2 ^ k) (b % 2 ^ k)
xor-mod_pow zero a b =
    let x : a % 2 ^ 0 ≡ 0 = omega arith in
    let y : b % 2 ^ 0 ≡ 0 = omega arith in omega (arith, ap₂ bit_xor x y, zero-bit_xor 0)
xor-mod_pow (suc k) a b =
    split (bit_xor a b)
    ∙ ap₂ (λ s t. s % 2 ^ k * 2 + t) (xor_halves a b) (xor_lowest a b)
    ∙ ap (λ t. t * 2 + differ (a % 2) (b % 2)) (xor-mod_pow k (a / 2) (b / 2))
    ∙ sym (
        bit_xor_digits ((a / 2) % 2 ^ k) ((b / 2) % 2 ^ k) (a % 2) (b % 2) (omega arith)
          (omega arith))
    ∙ sym (ap₂ bit_xor (split a) (split b))
  where
    split : (n : ℕ) → n % 2 ^ suc k ≡ (n / 2) % 2 ^ k * 2 + n % 2
    split n = ap (λ t. n % t) (pow-suc 2 k) ∙ mod_double n (2 ^ k) (pow_pos k)

-- Two exclusive ors, regrouped.
pub xor_interchange :
    (a b c d : ℕ) → bit_xor (bit_xor a b) (bit_xor c d) ≡ bit_xor (bit_xor a c) (bit_xor b d)
xor_interchange a b c d =
    xor_assoc a b (bit_xor c d)
    ∙ ap (bit_xor a)
        (sym (xor_assoc b c d) ∙ ap (λ t. bit_xor t d) (xor_comm b c) ∙ xor_assoc c b d)
    ∙ sym (xor_assoc a c (bit_xor b d))

-- A number written with its k lowest digits apart.
pub xor_disjoint : (k h l : ℕ) → l < 2 ^ k → bit_xor (h * 2 ^ k) l ≡ h * 2 ^ k + l
xor_disjoint zero h zero lt = omega (arith, bit_xor-zero (h * 2 ^ 0))
xor_disjoint zero h (suc l) lt = absurd (omega arith)
xor_disjoint (suc k) h l lt =
    let low : l ≡ l / 2 * 2 + l % 2 = omega arith in
    let high : h * 2 ^ suc k ≡ h * 2 ^ k * 2 + 0 = omega (arith, mul_pow_suc k h) in
    ap₂ bit_xor high low
    ∙ bit_xor_digits (h * 2 ^ k) (l / 2) 0 (l % 2) (omega arith) (omega arith)
    ∙ omega (
      arith,
      xor_disjoint k h (l / 2) (omega (arith, lt, pow-suc 2 k)),
      mul_pow_suc k h,
      zero-differ (l % 2),
    )

-- Shifting to the left goes through `^`.
pub xor-mul_pow : (k a b : ℕ) → bit_xor (a * 2 ^ k) (b * 2 ^ k) ≡ bit_xor a b * 2 ^ k
xor-mul_pow zero a b =
    let x : a * 2 ^ 0 ≡ a = omega arith in
    let y : b * 2 ^ 0 ≡ b = omega arith in ap₂ bit_xor x y ∙ omega arith
xor-mul_pow (suc k) a b =
    ap₂ bit_xor (more a) (more b)
    ∙ bit_xor_digits (a * 2 ^ k) (b * 2 ^ k) 0 0 (omega arith) (omega arith)
    ∙ omega (arith, xor-mul_pow k a b, mul_pow_suc k (bit_xor a b), differ_self 0)
  where
    more : (n : ℕ) → n * 2 ^ suc k ≡ n * 2 ^ k * 2 + 0
    more n = omega (arith, mul_pow_suc k n)
