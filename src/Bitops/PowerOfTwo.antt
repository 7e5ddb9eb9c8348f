-- ===== src/Bitops/PowerOfTwo.antt =====
-- What the bit tricks of include/skp/utils/bitops.h compute: the bit length, the test for a power
-- of two, and the least power of two that is not below a number.
use Prim.Native.Nat.{bit_and}
use native.Mathlib.Nat.{pow-le-pow_right, mod-eq_of_lt}
use mathlib.Core.Logic.{∥∥₁_elim}
use mathlib.Core.Bool.{Bool-set}
use skp.Common.{
  dec_lt, ℕ, zero, suc, ◌+◌, ◌-◌, ◌%◌, ◌^◌, ◌≤◌, ◌<◌, ◌≡◌, ◌↔◌, refl, ap, ◌∙◌, arith, true,
  Bool-cases, inl, inr, ltb, ltb→lt,
}
use skp.Common.Bits.{pow_pos, pow_two-and_pred, pow_two_of-and_pred}
use skp.Bitops.{leading_zeros, flsl, is_power_of_2, roundup_pow_of_two}

-- The zeros above the highest one, and the width of the rest.
leading_zeros_width :
    (w x : ℕ)
    → 0 < x
    → x < 2 ^ w
    → (b : ℕ) × (leading_zeros w x + suc b ≡ w) × (2 ^ b ≤ x) × (x < 2 ^ suc b)
unfolding leading_zeros
leading_zeros_width zero x pos lt = absurd (omega arith)
leading_zeros_width (suc w) x pos lt = elim (Bool-cases (ltb x (2 ^ w))) [
  | inl below ↦
      let (b, e, lo, hi) = leading_zeros_width w x pos (ltb→lt x (2 ^ w) below) in
      (b, rw below (omega (arith, e)), lo, hi)
  | inr above ↦ (w, rw above (omega arith), ground arith, lt)
]

-- A larger power of two has a larger exponent.
pub pow_cancel : (a b : ℕ) → 2 ^ a < 2 ^ b → a < b
pow_cancel a b h = elim (dec_lt a b) [
  | yes p ↦ p
  | no p ↦
      absurd (omega (arith, pow-le-pow_right {n = 2} (omega arith) {i = b} {j = a} (omega arith)))
]

-- `flsl` of a positive word is its bit length.
pub flsl_bounds :
    (x : ℕ) → 0 < x → x < 2 ^ 64 → (b : ℕ) × (flsl x ≡ suc b) × (2 ^ b ≤ x) × (x < 2 ^ suc b)
unfolding flsl
flsl_bounds x pos lt =
    let (b, e, lo, hi) = leading_zeros_width 64 x pos lt in (b, ground arith, lo, hi)

-- `is_power_of_2` holds exactly of the powers of two.
pub is_power_of_2_iff : (n : ℕ) → (is_power_of_2 n ≡ true) ↔ ∥ ((k : ℕ) × (n ≡ 2 ^ k)) ∥₁
unfolding is_power_of_2
is_power_of_2_iff n = (
  (λ h. ∣ pow_two_of-and_pred n (ground arith) (ground arith) ∣₁),
  (λ h.
      ∥∥₁_elim h (Bool-set _ _)
        λ (k, e). ground (arith, pow_pos k, pow_two-and_pred k, e, ap (λ t. bit_and t (t - 1)) e)),
)

-- the exponent that a true test of `is_power_of_2` stands for
pub exponent_of : (n : ℕ) → is_power_of_2 n ≡ true → (k : ℕ) × (n ≡ 2 ^ k)
unfolding is_power_of_2
exponent_of n h = pow_two_of-and_pred n (ground arith) (ground arith)

pred_word : (n : ℕ) → 0 < n → n ≤ 2 ^ 63 → (n + 2 ^ 64 - 1) % 2 ^ 64 ≡ n - 1
pred_word n pos le = omega arith

-- The exponent that rounding up gives.
pub roundup_exponent :
    (n : ℕ)
    → 0 < n
    → n ≤ 2 ^ 63
    → (k : ℕ) × (k ≤ 63)
      × (roundup_pow_of_two n ≡ 2 ^ k)
      × (n ≤ 2 ^ k)
      × ((j : ℕ) → n ≤ 2 ^ j → k ≤ j)
roundup_exponent zero pos le = absurd (omega arith)
roundup_exponent (suc zero) pos le = (0, omega arith, one, omega arith, λ j h. omega arith)
  where
    one : roundup_pow_of_two 1 ≡ 2 ^ 0
    one = unfold roundup_pow_of_two flsl in refl
roundup_exponent (suc (suc n)) pos le =
    let (b, e, lo, hi) = flsl_bounds (suc n) (omega arith) (omega arith) in
    let small : b < 63 = pow_cancel b 63 (omega (arith, lo)) in
    (
      suc b,
      omega (arith, small),
      roundup b e small,
      omega (arith, hi),
      λ j h. omega (arith, pow_cancel b j (omega (arith, lo, h))),
    )
  where
    roundup : (b : ℕ) → flsl (suc n) ≡ suc b → b < 63 → roundup_pow_of_two (suc (suc n)) ≡ 2 ^ suc b
    roundup b e small =
        unfold roundup_pow_of_two in
        ap (λ t. 2 ^ (flsl t % 64))
          (pred_word (suc (suc n)) pos le ∙ ap (λ (t : ℕ). t) (omega arith))
        ∙ ap (λ t. 2 ^ (t % 64)) e
        ∙ ap (◌^◌ 2) (mod-eq_of_lt (omega (arith, small)))

-- `roundup_pow_of_two` of a positive number up to 2 ^ 63 is a power of two, not below the number,
-- and not above any power of two that is not below the number.
pub roundup_pow_of_two_least :
    (n j : ℕ)
    → 0 < n
    → n ≤ 2 ^ 63
    → n ≤ 2 ^ j
    → (k : ℕ) × (roundup_pow_of_two n ≡ 2 ^ k)
      × (n ≤ roundup_pow_of_two n)
      × (roundup_pow_of_two n ≤ 2 ^ j)
roundup_pow_of_two_least n j pos le below =
    let (k, k_le, e, above, least) = roundup_exponent n pos le in
    (
      k,
      e,
      omega (arith, e, above),
      omega (arith, e, pow-le-pow_right {n = 2} (omega arith) {i = k} {j = j} (least j below)),
    )
