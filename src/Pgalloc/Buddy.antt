-- ===== src/Pgalloc/Buddy.antt =====
-- A block of src/mm/pgalloc.c and its buddy.
use Prim.Native.Nat.{bit_and, bit_xor}
use mathlib.Core.Path.{ap₂}
use skp.Common.{
  ℕ, suc, ◌+◌, ◌*◌, ◌/◌, ◌%◌, ◌^◌, ◌≡◌, ◌⊎◌, inl, inr, refl, sym, ap, ◌∙◌, arith, ℕ_discrete,
}
use skp.Common.Bits.{bit_and_digits, bit_and-mul_pow, bit_and_self}
use skp.Common.Xor.{xor-mul_pow, bit_xor_digits, bit_xor-zero}
use skp.Pgalloc.Weigh.{IsAligned, even_lem, second_half}

-- The two halves of a block are each other's buddies, and the first is the page of both.
pub record Halves (order page : ℕ) : Type 0 where
  pub first : ℕ
  pub aligned : IsAligned (suc order) first
  pub joined : bit_and page (bit_xor page (2 ^ order)) ≡ first
  pub halves :
      ((page ≡ first) × (bit_xor page (2 ^ order) ≡ first + 2 ^ order))
      ⊎ ((bit_xor page (2 ^ order) ≡ first) × (page ≡ first + 2 ^ order))

-- of the numbers 2 q and 2 q + 1, `^ 1` gives the other, and `&` of both the first
even_flip : (q : ℕ) → bit_xor (q * 2) 1 ≡ q * 2 + 1
even_flip q =
    let x : q * 2 ≡ q * 2 + 0 = omega arith in
    let y : 1 ≡ 0 * 2 + 1 = omega arith in
    ap₂ bit_xor x y
    ∙ bit_xor_digits q 0 0 1 (omega arith) (omega arith)
    ∙ ap (λ t. t * 2 + 1) (bit_xor-zero q)

odd_flip : (q : ℕ) → bit_xor (q * 2 + 1) 1 ≡ q * 2
odd_flip q =
    let y : 1 ≡ 0 * 2 + 1 = omega arith in
    ap (bit_xor (q * 2 + 1)) y
    ∙ bit_xor_digits q 0 1 1 (omega arith) (omega arith)
    ∙ omega (arith, bit_xor-zero q)

even_and : (q : ℕ) → bit_and (q * 2) (q * 2 + 1) ≡ q * 2
even_and q =
    let x : q * 2 ≡ q * 2 + 0 = omega arith in
    ap (λ t. bit_and t (q * 2 + 1)) x
    ∙ bit_and_digits q q 0 1 (omega arith) (omega arith)
    ∙ omega (arith, bit_and_self q)

odd_and : (q : ℕ) → bit_and (q * 2 + 1) (q * 2) ≡ q * 2
odd_and q =
    let x : q * 2 ≡ q * 2 + 0 = omega arith in
    ap (bit_and (q * 2 + 1)) x
    ∙ bit_and_digits q q 1 0 (omega arith) (omega arith)
    ∙ omega (arith, bit_and_self q)

pub page-Halves : (order page : ℕ) → IsAligned order page → Halves order page
page-Halves order page (m, e) = elim (ℕ_discrete (m % 2) 0) [
  | yes even ↦
      let q = m / 2 in
      let twice : m ≡ q * 2 = omega (arith, even) in
      let first : page ≡ q * 2 ^ suc order =
        e ∙ ap (λ t. t * 2 ^ order) twice ∙ sym (even_lem q order) in
      let other : bit_xor page (2 ^ order) ≡ (q * 2 + 1) * 2 ^ order =
        flip (q * 2) (e ∙ ap (λ t. t * 2 ^ order) twice) ∙ ap (λ t. t * 2 ^ order) (even_flip q) in
      record {
        first = q * 2 ^ suc order;
        aligned = (q, refl);
        joined =
            ap₂ bit_and (first ∙ even_lem q order) other
            ∙ bit_and-mul_pow order (q * 2) (q * 2 + 1)
            ∙ ap (λ t. t * 2 ^ order) (even_and q)
            ∙ sym (even_lem q order);
        halves = inl (first, other ∙ sym (second_half q order));
      }
  | no odd ↦
      let q = m / 2 in
      let twice : m ≡ q * 2 + 1 = omega (arith, odd) in
      let here : page ≡ (q * 2 + 1) * 2 ^ order = e ∙ ap (λ t. t * 2 ^ order) twice in
      let other : bit_xor page (2 ^ order) ≡ q * 2 * 2 ^ order =
        flip (q * 2 + 1) here ∙ ap (λ t. t * 2 ^ order) (odd_flip q) in
      record {
        first = q * 2 ^ suc order;
        aligned = (q, refl);
        joined =
            ap₂ bit_and here other
            ∙ bit_and-mul_pow order (q * 2 + 1) (q * 2)
            ∙ ap (λ t. t * 2 ^ order) (odd_and q)
            ∙ sym (even_lem q order);
        halves = inr (other ∙ sym (even_lem q order), here ∙ sym (second_half q order));
      }
]
  where
    flip : (n : ℕ) → page ≡ n * 2 ^ order → bit_xor page (2 ^ order) ≡ bit_xor n 1 * 2 ^ order
    flip n f =
        let unit : 2 ^ order ≡ 1 * 2 ^ order = omega arith in
        ap₂ bit_xor f unit ∙ xor-mul_pow order n 1
