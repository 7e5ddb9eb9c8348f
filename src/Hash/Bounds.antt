-- ===== src/Hash/Bounds.antt =====
-- The results of src/utils/hash.c and include/skp/utils/hash.h stay in their width.
use native.Mathlib.Nat.{pow-suc, pow-succ', div-div-eq-div-mul, add-suc, add-zero, mod-le}
use Prim.Native.Nat.{bit_and, bit_or, bit_xor}
use skp.Common.{
  ℕ, zero, suc, ◌+◌, ◌-◌, ◌*◌, ◌/◌, ◌%◌, ◌^◌, ◌≤◌, ◌<◌, ◌≡◌, sym, ap, ◌∙◌, some, List, [], ◌∷◌,
  ◌==◌, if◌then◌else◌, arith, length, take,
}
use skp.Common.Int.{ℤ, pos, negsuc}
use skp.Common.Text.{strlen, key_bytes}
use skp.Common.Word.{u32_mod, add32}
use skp.Common.Xor.{bit_xor-lt}
use skp.Common.Or.{bit_and-le}
use skp.Hash.{
  AreBytes, no_bytes, a_byte, u64_mod, flower_loop, hash_flower, time33_loop, hash_time33,
  ignore_case_loop, hash_ignore_case_time33, reduce_bit_loop, hash_reduce_bit, pjw_loop, hash_pjw,
  murmur_hash2, hash_32, hash_64, rol32, pjw_turn,
}

take-AreBytes : (n : ℕ) (bs : List ℕ) → AreBytes bs → AreBytes (take n bs)
take-AreBytes zero bs p = no_bytes
take-AreBytes (suc n) [] p = no_bytes
take-AreBytes (suc n) (b ∷ bs) (a_byte q p) = a_byte q (take-AreBytes n bs p)

key_bytes-AreBytes : (key : List ℕ) (len : ℤ) → AreBytes key → AreBytes (key_bytes key len)
key_bytes-AreBytes key (pos n) p = take-AreBytes n key p
key_bytes-AreBytes key (negsuc n) p = take-AreBytes (strlen key) key p

flower_loop-lt : (bs : List ℕ) (h : ℕ) → AreBytes bs → h < u32_mod → flower_loop h bs < u32_mod
unfolding flower_loop
flower_loop-lt [] h no_bytes p = p
flower_loop-lt (b ∷ bs) h (a_byte q rest) p =
    flower_loop-lt bs (bit_xor ((h * 16777619) % u32_mod) b) rest
      (bit_xor-lt 32 ((h * 16777619) % u32_mod) b (omega arith) (omega arith))

time33_loop-lt : (bs : List ℕ) (h : ℕ) → h < u32_mod → time33_loop h bs < u32_mod
unfolding time33_loop
time33_loop-lt [] h p = p
time33_loop-lt (b ∷ bs) h p = time33_loop-lt bs ((h * 33 + b) % u32_mod) (omega arith)

ignore_case_loop-lt : (bs : List ℕ) (h : ℕ) → h < u32_mod → ignore_case_loop h bs < u32_mod
unfolding ignore_case_loop
ignore_case_loop-lt [] h p = p
ignore_case_loop-lt (b ∷ bs) h p =
    ignore_case_loop-lt bs ((h * 33 + bit_or b 0x20) % u32_mod) (omega arith)

reduce_bit_loop-lt : (bs : List ℕ) (h : ℕ) → h < u32_mod → reduce_bit_loop h bs < u32_mod
unfolding reduce_bit_loop
reduce_bit_loop-lt [] h p = p
reduce_bit_loop-lt (b ∷ bs) h p = reduce_bit_loop-lt bs (add32 (rol32 h 9) b) (omega arith)

pjw_turn-lt : (h b : ℕ) → pjw_turn h b < u32_mod
pjw_turn-lt h b =
    let h1 = add32 ((h * 2 ^ 4) % u32_mod) b in
    let g = bit_and h1 0xf0000000 in
    let g_le : g ≤ h1 = bit_and-le h1 0xf0000000 in
    let mixed : bit_xor h1 (g / 2 ^ 24) < u32_mod =
      bit_xor-lt 32 h1 (g / 2 ^ 24) (omega arith) (omega arith) in
    let h2 = if g == 0 then h1 else bit_xor h1 (g / 2 ^ 24) in
    let h2_lt : h2 < u32_mod = ground (arith, mixed) in
    omega (arith, bit_and-le h2 (u32_mod - 1 - g), h2_lt)

pjw_loop-lt : (bs : List ℕ) (h : ℕ) → h < u32_mod → pjw_loop h bs < u32_mod
unfolding pjw_loop
pjw_loop-lt [] h p = p
pjw_loop-lt (b ∷ bs) h p = pjw_loop-lt bs (pjw_turn h b) (pjw_turn-lt h b)

-- Each hash of a key of bytes is a 32-bit number, and `HashReduceBit` is never 0.
key_hashes-lt :
    (key : List ℕ) (len : ℤ)
    → AreBytes key
    → (hash_flower (some key) len < u32_mod)
      × (hash_time33 (some key) len < u32_mod)
      × (hash_ignore_case_time33 (some key) len < u32_mod)
      × (hash_pjw (some key) len < u32_mod)
      × (murmur_hash2 (some key) len < u32_mod)
      × (hash_reduce_bit (some key) len < u32_mod)
      × (0 < hash_reduce_bit (some key) len)
unfolding hash_flower hash_time33 hash_ignore_case_time33 hash_pjw murmur_hash2 hash_reduce_bit
key_hashes-lt key len p =
    let bytes = key_bytes key len in
    let h = reduce_bit_loop (length bytes % u32_mod) bytes in
    let h_lt : h < u32_mod = reduce_bit_loop-lt bytes (length bytes % u32_mod) (omega arith) in
    (
      flower_loop-lt bytes 0 (key_bytes-AreBytes key len p) (omega arith),
      time33_loop-lt bytes 0 (omega arith),
      ignore_case_loop-lt bytes 0 (omega arith),
      pjw_loop-lt bytes (length bytes % u32_mod) (omega arith),
      omega arith,
      ground (arith, h_lt),
      ground (arith, h_lt),
    )

-- the highest digits
shift-lt : (k b x : ℕ) → x < 2 ^ (b + k) → x / 2 ^ k < 2 ^ b
shift-lt zero b x p = omega (arith, ap (◌^◌ 2) (add-zero b))
shift-lt (suc k) b x p =
    let half : x / 2 < 2 ^ (b + k) = omega (arith, pow-suc 2 (b + k), ap (◌^◌ 2) (add-suc b k)) in
    let split : x / 2 ^ suc k ≡ x / 2 / 2 ^ k =
      ap (λ t. x / t) (pow-succ' 2 k) ∙ sym (div-div-eq-div-mul x 2 (2 ^ k)) in
    omega (arith, split, shift-lt k b (x / 2) half)

-- `hash_32` and `hash_64` give a number of that many bits, for up to 32.
hash-lt : (val bits : ℕ) → bits ≤ 32 → (hash_32 val bits < 2 ^ bits) × (hash_64 val bits < 2 ^ bits)
unfolding hash_32 hash_64
hash-lt val bits p =
    let x = (val * 0x61C88647) % u32_mod in
    let y = (val * 0x61C8864680B583EB) % u64_mod in
    let all : bits + (32 - bits) ≡ 32 = omega arith in
    let wide : bits + (64 - bits) ≡ 64 = omega arith in
    let y_lt : y / 2 ^ (64 - bits) < 2 ^ bits =
      shift-lt (64 - bits) bits y (omega (arith, ap (◌^◌ 2) wide)) in
    (
      shift-lt (32 - bits) bits x (omega (arith, ap (◌^◌ 2) all)),
      omega (arith, y_lt, mod-le (y / 2 ^ (64 - bits)) u32_mod),
    )
