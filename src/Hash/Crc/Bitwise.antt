-- ===== src/Hash/Crc/Bitwise.antt =====
-- The table of `byteCrc32` of src/utils/hash.c against the shift register that it stands for.
use Prim.Native.Nat.{bit_and, bit_xor}
use skp.Common.{
  ℕ, zero, suc, ◌+◌, ◌*◌, ◌/◌, ◌%◌, ◌^◌, ◌≤◌, ◌<◌, ◌≡◌, refl, sym, ap, ◌∙◌, Bool, true, ◌&&◌, List,
  [], ◌∷◌, ◌==◌, length, arith, get_or,
}
use mathlib.Core.Path.{ap₂}
use native.Mathlib.Nat.{pow-succ', mul_assoc}
use skp.Common.Bits.{bit_and_mask, pow_pos}
use skp.Common.Xor.{
  bit_xor-zero, zero-bit_xor, xor_comm, bit_xor-lt, xor-div_pow, xor_disjoint, xor-mul_pow,
  xor-mod_pow, xor_interchange,
}
use skp.Common.Word.{u32_mod}
use skp.Hash.{AreBytes, no_bytes, a_byte}
use skp.Hash.Crc.{crc32table, byte_crc32}

-- The polynomial x^32 + x^26 + x^23 + x^22 + x^16 + x^12 + x^11 + x^10 + x^8 + x^7 + x^5 + x^4 + x^2
-- + x + 1, without its highest term.
abbrev pub poly : ℕ
poly = 0x04c11db7

-- what a digit that leaves the register does
abbrev feedback : ℕ → ℕ
feedback zero = 0
feedback (suc n) = poly

-- One turn of the register: the highest digit leaves it to the left.
pub turn : ℕ → ℕ
turn x = bit_xor (x % 2 ^ 31 * 2) (feedback (x / 2 ^ 31))

pub turns : ℕ → ℕ → ℕ
turns zero x = x
turns (suc n) x = turns n (turn x)

-- The register takes the bytes in, one after another, each at its upper end.
pub register_crc : List ℕ → ℕ → ℕ
register_crc [] crc = crc
register_crc (b ∷ buf) crc = register_crc buf (turns 8 (bit_xor crc (b * 2 ^ 24)))

feedback-xor :
    (s t : ℕ) → s < 2 → t < 2 → feedback (bit_xor s t) ≡ bit_xor (feedback s) (feedback t)
feedback-xor zero t p q = ap feedback (zero-bit_xor t) ∙ sym (zero-bit_xor (feedback t))
feedback-xor (suc zero) zero p q = refl
feedback-xor (suc zero) (suc zero) p q = refl
feedback-xor (suc zero) (suc (suc t)) p q = absurd (omega arith)
feedback-xor (suc (suc s)) t p q = absurd (omega arith)

-- The register is linear: `^` goes through a turn.
turn-xor : (x y : ℕ) → x < u32_mod → y < u32_mod → turn (bit_xor x y) ≡ bit_xor (turn x) (turn y)
unfolding turn
turn-xor x y p q =
    ap₂ (λ s t. bit_xor (s * 2) (feedback t)) (xor-mod_pow 31 x y) (xor-div_pow 31 x y)
    ∙ ap₂ bit_xor (sym (xor-mul_pow 1 (x % 2 ^ 31) (y % 2 ^ 31)))
        (feedback-xor (x / 2 ^ 31) (y / 2 ^ 31) (omega arith) (omega arith))
    ∙ xor_interchange (x % 2 ^ 31 * 2) (y % 2 ^ 31 * 2) (feedback (x / 2 ^ 31))
        (feedback (y / 2 ^ 31))

feedback-lt : (t : ℕ) → feedback t < u32_mod
feedback-lt zero = omega arith
feedback-lt (suc t) = omega arith

turn-lt : (x : ℕ) → turn x < u32_mod
unfolding turn
turn-lt x =
    bit_xor-lt 32 (x % 2 ^ 31 * 2) (feedback (x / 2 ^ 31)) (omega arith) (feedback-lt (x / 2 ^ 31))

turns-xor :
    (n x y : ℕ)
    → x < u32_mod
    → y < u32_mod
    → turns n (bit_xor x y) ≡ bit_xor (turns n x) (turns n y)
unfolding turns
turns-xor zero x y p q = refl
turns-xor (suc n) x y p q =
    ap (turns n) (turn-xor x y p q) ∙ turns-xor n (turn x) (turn y) (turn-lt x) (turn-lt y)

-- Digits that do not reach the end of the register only move.
turn_small : (x : ℕ) → x < 2 ^ 31 → turn x ≡ x * 2
unfolding turn
turn_small x p =
    let high : x / 2 ^ 31 ≡ 0 = omega arith in
    let low : x % 2 ^ 31 ≡ x = omega arith in
    ap₂ (λ s t. bit_xor (s * 2) (feedback t)) low high ∙ bit_xor-zero (x * 2)

turns_small : (n x : ℕ) → x * 2 ^ n < u32_mod → turns n x ≡ x * 2 ^ n
unfolding turns
turns_small zero x p = omega arith
turns_small (suc n) x p =
    let fits : x * 2 * 2 ^ n < u32_mod = omega (arith, doubled) in
    let small : x < 2 ^ 31 = omega (arith, p, le) in
    ap (turns n) (turn_small x small) ∙ turns_small n (x * 2) fits ∙ sym doubled
  where
    doubled : x * 2 ^ suc n ≡ x * 2 * 2 ^ n
    doubled = ap (λ t. x * t) (pow-succ' 2 n) ∙ sym (mul_assoc x 2 (2 ^ n))

    le : x * 2 ≤ x * 2 * 2 ^ n
    le = grind (arith, pow_pos n)

-- whether these are what eight turns make of the numbers from `i` on, at the upper end
entries_from : ℕ → List ℕ → Bool
entries_from i [] = true
entries_from i (t ∷ ts) = (turns 8 (i * 2 ^ 24) == t) && entries_from (suc i) ts

entries_from_lem :
    (ts : List ℕ) (i j : ℕ)
    → entries_from i ts ≡ true
    → j < length ts
    → turns 8 ((i + j) * 2 ^ 24) ≡ get_or ts j 0
unfolding entries_from
entries_from_lem [] i j h lt = absurd (omega arith)
entries_from_lem (t ∷ ts) i zero h lt =
    let here : turns 8 (i * 2 ^ 24) ≡ t = ground (arith, h) in
    let same : i + 0 ≡ i = omega arith in ap (λ n. turns 8 (n * 2 ^ 24)) same ∙ here
entries_from_lem (t ∷ ts) i (suc j) h lt =
    let rest : entries_from (suc i) ts ≡ true = ground (arith, h) in
    let same : i + suc j ≡ suc i + j = omega arith in
    ap (λ n. turns 8 (n * 2 ^ 24)) same ∙ entries_from_lem ts (suc i) j rest (omega arith)

table_entries : entries_from 0 crc32table ≡ true
unfolding entries_from turns turn
table_entries = refl

-- Each entry of the table is what eight turns make of its index at the upper end.
table_lem : (i : ℕ) → i < 256 → turns 8 (i * 2 ^ 24) ≡ get_or crc32table i 0
table_lem i p =
    let same : i ≡ 0 + i = omega arith in
    ap (λ n. turns 8 (n * 2 ^ 24)) same ∙ entries_from_lem crc32table 0 i table_entries p

-- One byte.
byte_lem :
    (crc b : ℕ)
    → crc < u32_mod
    → b < 256
    → turns 8 (bit_xor crc (b * 2 ^ 24))
      ≡ bit_xor
          ((crc * 2 ^ 8) % u32_mod)
          (get_or crc32table (bit_and (bit_xor (crc / 2 ^ 24) b) 255) 0)
byte_lem crc b p q =
    let hi = crc / 2 ^ 24 in
    let lo = crc % 2 ^ 24 in
    let both = bit_xor hi b in
    let hi_lt : hi < 256 = omega arith in
    let both_lt : both < 256 = bit_xor-lt 8 hi b hi_lt q in
    let parts : crc ≡ bit_xor (hi * 2 ^ 24) lo =
      sym (xor_disjoint 24 hi lo (omega arith) ∙ omega arith) in
    let regrouped : bit_xor crc (b * 2 ^ 24) ≡ bit_xor (both * 2 ^ 24) lo =
      ap (λ t. bit_xor t (b * 2 ^ 24)) parts
      ∙ ap (bit_xor (bit_xor (hi * 2 ^ 24) lo)) (sym (bit_xor-zero (b * 2 ^ 24)))
      ∙ xor_interchange (hi * 2 ^ 24) lo (b * 2 ^ 24) 0
      ∙ ap₂ bit_xor (xor-mul_pow 24 hi b) (bit_xor-zero lo) in
    let moved : lo * 2 ^ 8 ≡ (crc * 2 ^ 8) % u32_mod = omega arith in
    let masked : both ≡ bit_and both 255 = omega (arith, bit_and_mask 8 both) in
    ap (turns 8) regrouped
    ∙ turns-xor 8 (both * 2 ^ 24) lo (omega arith) (omega arith)
    ∙ ap₂ bit_xor (table_lem both both_lt ∙ ap (λ i. get_or crc32table i 0) masked)
        (turns_small 8 lo (omega arith) ∙ moved)
    ∙ xor_comm (get_or crc32table (bit_and both 255) 0) ((crc * 2 ^ 8) % u32_mod)

turns-lt : (n x : ℕ) → x < u32_mod → turns n x < u32_mod
unfolding turns
turns-lt zero x p = p
turns-lt (suc n) x p = turns-lt n (turn x) (turn-lt x)

-- On bytes, from a word to begin with, `byteCrc32` computes what the shift register computes digit by
-- digit.
pub byte_crc32-register_crc :
    (buf : List ℕ) (crc : ℕ)
    → AreBytes buf
    → crc < u32_mod
    → byte_crc32 buf crc ≡ register_crc buf crc
unfolding byte_crc32 register_crc
byte_crc32-register_crc [] crc no_bytes p = refl
byte_crc32-register_crc (b ∷ buf) crc (a_byte q rest) p =
    ap (byte_crc32 buf) (sym (byte_lem crc b p q))
    ∙ byte_crc32-register_crc buf (turns 8 (bit_xor crc (b * 2 ^ 24))) rest
        (turns-lt 8 (bit_xor crc (b * 2 ^ 24)) (bit_xor-lt 32 crc (b * 2 ^ 24) p (omega arith)))
