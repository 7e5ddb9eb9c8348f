-- ===== src/Hash/Mix.antt =====
-- `__jhash_mix` of include/skp/utils/hash.h mixes three words reversibly, as its comment says.
use Prim.Native.Nat.{bit_xor}
use skp.Common.{ℕ, ◌-◌, ◌*◌, ◌/◌, ◌%◌, ◌^◌, ◌<◌, ◌≡◌, ap, ◌∙◌, arith}
use native.Mathlib.Nat.{div-le_self}
use skp.Common.Xor.{xor_cancel, bit_xor-lt}
use skp.Common.Or.{bit_or-lt}
use skp.Common.Word.{u32_mod, add32, sub32}
use skp.Hash.{Triple, rol32, mix_line, jhash_mix}

-- a line, backwards
abbrev undo_line : ℕ → ℕ → ℕ → ℕ → ℕ × ℕ
undo_line n x y z = let z0 = sub32 z y in (add32 (bit_xor x (rol32 z0 n)) z0, z0)

-- the lines of the mix, backwards
pub undo_mix : Triple → Triple
undo_mix t =
    let (c3, b3) = undo_line 4 t.c t.a t.b in
    let (b2, a3) = undo_line 19 b3 c3 t.a in
    let (a2, c2) = undo_line 16 a3 b2 c3 in
    let (c1, b1) = undo_line 8 c2 a2 b2 in
    let (b, a1) = undo_line 6 b1 c1 a2 in
    let (a, c) = undo_line 4 a1 b c1 in record { a = a; b = b; c = c }

add-sub32 : (z y : ℕ) → z < u32_mod → y < u32_mod → sub32 (add32 z y) y ≡ z
add-sub32 z y p q = omega arith

sub-add32 : (x z : ℕ) → x < u32_mod → z < u32_mod → add32 (sub32 x z) z ≡ x
sub-add32 x z p q = omega arith

undo-mix_line :
    (n x y z : ℕ)
    → x < u32_mod
    → y < u32_mod
    → z < u32_mod
    → undo_line n (mix_line n x y z).0 y (mix_line n x y z).1 ≡ (x, z)
undo-mix_line n x y z p q r =
    ap (λ z0. (add32 (bit_xor (bit_xor (sub32 x z) (rol32 z n)) (rol32 z0 n)) z0, z0))
      (add-sub32 z y r q)
    ∙ ap (λ t. (add32 t z, z)) (xor_cancel (sub32 x z) (rol32 z n))
    ∙ ap (λ t. (t, z)) (sub-add32 x z p r)

rol32-lt : (x n : ℕ) → x < u32_mod → rol32 x n < u32_mod
rol32-lt x n p =
    bit_or-lt 32 ((x * 2 ^ n) % u32_mod) (x / 2 ^ (32 - n)) (omega arith)
      (omega (arith, div-le_self x (2 ^ (32 - n))))

-- The words of a line stay words.
fits : (n x y z : ℕ) → x < u32_mod → z < u32_mod → (mix_line n x y z).0 < u32_mod
fits n x y z p r = bit_xor-lt 32 (sub32 x z) (rol32 z n) (omega arith) (rol32-lt z n r)

-- what is left to undo after each line: the word that it leaves alone, and the other two
abbrev left1 : ℕ → ℕ × ℕ → Triple
left1 b p = record { a = p.0; b = b; c = p.1 }

abbrev left2 : ℕ → ℕ × ℕ → Triple
left2 c1 p = left1 p.0 (undo_line 4 p.1 p.0 c1)

abbrev left3 : ℕ → ℕ × ℕ → Triple
left3 a2 p = left2 p.0 (undo_line 6 p.1 p.0 a2)

abbrev left4 : ℕ → ℕ × ℕ → Triple
left4 b2 p = left3 p.0 (undo_line 8 p.1 p.0 b2)

abbrev left5 : ℕ → ℕ × ℕ → Triple
left5 c3 p = left4 p.0 (undo_line 16 p.1 p.0 c3)

abbrev left6 : ℕ → ℕ × ℕ → Triple
left6 a4 p = left5 p.0 (undo_line 19 p.1 p.0 a4)

-- three words
pub record IsWords (t : Triple) : Type 0 where
  pub a : t.a < u32_mod
  pub b : t.b < u32_mod
  pub c : t.c < u32_mod

-- What `__jhash_mix` makes of three words can be turned back into them, so no two triples of words
-- are mixed to the same one.
pub undo_mix-jhash_mix : (t : Triple) → IsWords t → undo_mix (jhash_mix t) ≡ t
unfolding undo_mix jhash_mix
undo_mix-jhash_mix t w =
    let (a1, c1) = mix_line 4 t.a t.b t.c in
    let (b1, a2) = mix_line 6 t.b c1 a1 in
    let (c2, b2) = mix_line 8 c1 a2 b1 in
    let (a3, c3) = mix_line 16 a2 b2 c2 in
    let (b3, a4) = mix_line 19 b2 c3 a3 in
    let a1_lt = fits 4 t.a t.b t.c w.a w.c in
    let b1_lt = fits 6 t.b c1 a1 w.b a1_lt in
    let c2_lt = fits 8 c1 a2 b1 (omega arith) b1_lt in
    let a3_lt = fits 16 a2 b2 c2 (omega arith) c2_lt in
    let b3_lt = fits 19 b2 c3 a3 (omega arith) a3_lt in
    ap (left6 a4) (undo-mix_line 4 c3 a4 b3 (omega arith) (omega arith) b3_lt)
    ∙ ap (left5 c3) (undo-mix_line 19 b2 c3 a3 (omega arith) (omega arith) a3_lt)
    ∙ ap (left4 b2) (undo-mix_line 16 a2 b2 c2 (omega arith) (omega arith) c2_lt)
    ∙ ap (left3 a2) (undo-mix_line 8 c1 a2 b1 (omega arith) (omega arith) b1_lt)
    ∙ ap (left2 c1) (undo-mix_line 6 t.b c1 a1 w.b (omega arith) a1_lt)
    ∙ ap (left1 t.b) (undo-mix_line 4 t.a t.b t.c w.a w.b w.c)
