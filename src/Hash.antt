-- ===== src/Hash.antt =====
-- src/utils/hash.c and include/skp/utils/hash.h: the hash functions and the CRC, on a machine that stores
-- the lowest byte first. A key is the list of its bytes, `none` a null pointer. `pos n` is a length
-- that is given, which the key has, and a negative one asks for `strlen`.
mod Mix
mod Bounds
pub mod Crc
mod Tests
use Prim.Native.Nat.{bit_and, bit_or, bit_xor}
use skp.Common.{
  ℕ, zero, suc, ◌+◌, ◌-◌, ◌*◌, ◌/◌, ◌%◌, ◌^◌, ◌<◌, Bool, true, false, Option, none, some, List, [],
  ◌∷◌, ◌==◌, if◌then◌else◌, length, take, get_or,
}
use skp.Common.Int.{ℤ, pos, negsuc}
use skp.Common.Text.{key_bytes}
use skp.Common.Word.{u32_mod, add32, sub32}

pub data AreBytes : List ℕ → Type 0 where
  no_bytes : AreBytes []
  a_byte : {b : ℕ} {bs : List ℕ} → b < 256 → AreBytes bs → AreBytes (b ∷ bs)

abbrev pub u64_mod : ℕ
u64_mod = 2 ^ 64

-- `rol32`
abbrev pub rol32 : ℕ → ℕ → ℕ
rol32 x n = bit_or ((x * 2 ^ n) % u32_mod) (x / 2 ^ (32 - n))

pub flower_loop : ℕ → List ℕ → ℕ
flower_loop h [] = h
flower_loop h (b ∷ bs) = flower_loop (bit_xor ((h * 16777619) % u32_mod) b) bs

pub hash_flower : Option (List ℕ) → ℤ → ℕ
hash_flower none len = 0
hash_flower (some key) len = flower_loop 0 (key_bytes key len)

pub time33_loop : ℕ → List ℕ → ℕ
time33_loop h [] = h
time33_loop h (b ∷ bs) = time33_loop ((h * 33 + b) % u32_mod) bs

pub hash_time33 : Option (List ℕ) → ℤ → ℕ
hash_time33 none len = 0
hash_time33 (some key) len = time33_loop 0 (key_bytes key len)

pub ignore_case_loop : ℕ → List ℕ → ℕ
ignore_case_loop h [] = h
ignore_case_loop h (b ∷ bs) = ignore_case_loop ((h * 33 + bit_or b 0x20) % u32_mod) bs

pub hash_ignore_case_time33 : Option (List ℕ) → ℤ → ℕ
hash_ignore_case_time33 none len = 0
hash_ignore_case_time33 (some key) len = ignore_case_loop 0 (key_bytes key len)

pub reduce_bit_loop : ℕ → List ℕ → ℕ
reduce_bit_loop h [] = h
reduce_bit_loop h (b ∷ bs) = reduce_bit_loop (add32 (rol32 h 9) b) bs

pub hash_reduce_bit : Option (List ℕ) → ℤ → ℕ
hash_reduce_bit none len = u32_mod - 1
hash_reduce_bit (some key) len =
    let bytes = key_bytes key len in
    let h = reduce_bit_loop (length bytes % u32_mod) bytes in if h == 0 then u32_mod - 1 else h

-- one turn of the loop of `HashPJW`: `h &= ~g` clears the bits of `g`
abbrev pjw_turn : ℕ → ℕ → ℕ
pjw_turn h b =
    let h1 = add32 ((h * 2 ^ 4) % u32_mod) b in
    let g = bit_and h1 0xf0000000 in
    let h2 = if g == 0 then h1 else bit_xor h1 (g / 2 ^ 24) in bit_and h2 (u32_mod - 1 - g)

pub pjw_loop : ℕ → List ℕ → ℕ
pjw_loop h [] = h
pjw_loop h (b ∷ bs) = pjw_loop (pjw_turn h b) bs

pub hash_pjw : Option (List ℕ) → ℤ → ℕ
hash_pjw none len = 0
hash_pjw (some key) len = let bytes = key_bytes key len in pjw_loop (length bytes % u32_mod) bytes

-- `hv` has 64 bits, and `k` has 32.
pub murmur_loop : ℕ → List ℕ → ℕ
murmur_loop hv (b0 ∷ b1 ∷ b2 ∷ b3 ∷ rest) =
    let m : ℕ = 0x5bd1e995 in
    let k = b0 + b1 * 2 ^ 8 + b2 * 2 ^ 16 + b3 * 2 ^ 24 in
    let k1 = (k * m) % u32_mod in
    let k2 = bit_xor k1 (k1 / 2 ^ 24) in
    murmur_loop (bit_xor ((hv * m) % u64_mod) ((k2 * m) % u32_mod)) rest
murmur_loop hv (b0 ∷ b1 ∷ b2 ∷ []) =
    (bit_xor (bit_xor (bit_xor hv (b2 * 2 ^ 16)) (b1 * 2 ^ 8)) b0 * 0x5bd1e995) % u64_mod
murmur_loop hv (b0 ∷ b1 ∷ []) = (bit_xor (bit_xor hv (b1 * 2 ^ 8)) b0 * 0x5bd1e995) % u64_mod
murmur_loop hv (b0 ∷ []) = (bit_xor hv b0 * 0x5bd1e995) % u64_mod
murmur_loop hv [] = hv

pub murmur_hash2 : Option (List ℕ) → ℤ → ℕ
murmur_hash2 none len = 0
murmur_hash2 (some key) len =
    let bytes = key_bytes key len in
    let hv = murmur_loop (bit_xor 0x1507 (length bytes)) bytes in
    let hv1 = (bit_xor hv (hv / 2 ^ 13) * 0x5bd1e995) % u64_mod in
    bit_xor hv1 (hv1 / 2 ^ 15) % u32_mod

-- the variables a, b and c
pub record Triple : Type 0 where
  pub a : ℕ
  pub b : ℕ
  pub c : ℕ

-- One line of `__jhash_mix`: `x -= z; x ^= rol32(z, n); z += y`.
abbrev pub mix_line : ℕ → ℕ → ℕ → ℕ → ℕ × ℕ
mix_line n x y z = (bit_xor (sub32 x z) (rol32 z n), add32 z y)

pub jhash_mix : Triple → Triple
jhash_mix t =
    let (a1, c1) = mix_line 4 t.a t.b t.c in
    let (b1, a2) = mix_line 6 t.b c1 a1 in
    let (c2, b2) = mix_line 8 c1 a2 b1 in
    let (a3, c3) = mix_line 16 a2 b2 c2 in
    let (b3, a4) = mix_line 19 b2 c3 a3 in
    let (c4, b4) = mix_line 4 c3 a4 b3 in record { a = a4; b = b4; c = c4 }

-- One statement pair of `__jhash_final`: `x ^= y; x -= rol32(y, n)`.
abbrev pub final_line : ℕ → ℕ → ℕ → ℕ
final_line n x y = sub32 (bit_xor x y) (rol32 y n)

pub jhash_final : Triple → Triple
jhash_final t =
    let c1 = final_line 14 t.c t.b in
    let a1 = final_line 11 t.a c1 in
    let b1 = final_line 25 t.b a1 in
    let c2 = final_line 16 c1 b1 in
    let a2 = final_line 4 a1 c2 in
    let b2 = final_line 14 b1 a2 in
    let c3 = final_line 24 c2 b2 in record { a = a2; b = b2; c = c3 }

-- `jhash2`, from the first loop on: the words that are left
pub jhash2_loop : Triple → List ℕ → ℕ
jhash2_loop t [] = t.c
jhash2_loop t (k0 ∷ []) = (jhash_final (record t { a = add32 t.a k0 })).c
jhash2_loop t (k0 ∷ k1 ∷ []) = (jhash_final (record t { a = add32 t.a k0; b = add32 t.b k1 })).c
jhash2_loop t (k0 ∷ k1 ∷ k2 ∷ []) =
    (jhash_final (record { a = add32 t.a k0; b = add32 t.b k1; c = add32 t.c k2 })).c
jhash2_loop t (k0 ∷ k1 ∷ k2 ∷ k3 ∷ rest) =
    jhash2_loop (jhash_mix (record { a = add32 t.a k0; b = add32 t.b k1; c = add32 t.c k2 }))
      (k3 ∷ rest)

abbrev pub jhash_initval : ℕ
jhash_initval = 0xdeadbeef

pub jhash2 : List ℕ → ℕ → ℕ
jhash2 k initval =
    let s = (jhash_initval + length k * 4 + initval) % u32_mod in
    jhash2_loop (record { a = s; b = s; c = s }) k

pub jhash_nwords : ℕ → ℕ → ℕ → ℕ → ℕ
jhash_nwords a b c initval =
    (jhash_final (record { a = add32 a initval; b = add32 b initval; c = add32 c initval })).c

pub jhash_3words : ℕ → ℕ → ℕ → ℕ → ℕ
jhash_3words a b c initval = jhash_nwords a b c ((initval + jhash_initval + 12) % u32_mod)

pub jhash_2words : ℕ → ℕ → ℕ → ℕ
jhash_2words a b initval = jhash_nwords a b 0 ((initval + jhash_initval + 8) % u32_mod)

pub jhash_1word : ℕ → ℕ → ℕ
jhash_1word a initval = jhash_nwords a 0 0 ((initval + jhash_initval + 4) % u32_mod)

-- `hash_32` and `hash_64`, on numbers of their width
abbrev golden_ratio_32 : ℕ
golden_ratio_32 = 0x61C88647

abbrev golden_ratio_64 : ℕ
golden_ratio_64 = 0x61C8864680B583EB

pub hash_32 : ℕ → ℕ → ℕ
hash_32 val bits = (val * golden_ratio_32) % u32_mod / 2 ^ (32 - bits)

pub hash_64 : ℕ → ℕ → ℕ
hash_64 val bits = (val * golden_ratio_64) % u64_mod / 2 ^ (64 - bits) % u32_mod

pub hash32_ptr : ℕ → ℕ
hash32_ptr val = bit_xor val (val / 2 ^ 32) % u32_mod
