-- ===== src/Ring/Init.antt =====
-- `ringb_init` of src/adt/ring.c: what it accepts, and that the ring is then valid and empty.
use mathlib.Core.Path.{subst, ap₂}
use native.Mathlib.Nat.{mod-eq_of_lt}
use skp.Common.{
  ℕ, ◌-◌, ◌%◌, ◌^◌, ◌≤◌, ◌<◌, ◌≡◌, ◌⊎◌, refl, sym, ap, ◌∙◌, [], arith, true, false, Bool-cases, inl,
  inr, length, ltb, if◌then◌else◌,
}
use skp.Common.Bits.{pow_pos}
use skp.Common.Word.{add32, sub32, u32_mod}
use skp.Bitops.{is_power_of_2, roundup_pow_of_two}
use skp.Bitops.PowerOfTwo.{exponent_of, roundup_exponent, pow_cancel}
use skp.Ring.{Ringb, ok, init, has_flag, f_exact_sz, f_sp_enq, f_sc_deq, sz_mask}
use skp.Ring.Valid.{IsValid, contents, pow_le_31}

-- the ring that a successful call leaves
abbrev fresh : Ringb → ℕ → ℕ → ℕ → ℕ → Ringb
fresh r flags size mask capacity = record {
  flags = flags;
  size = size;
  mask = mask;
  capacity = capacity;
  prod = record { head = 0; tail = 0; single = has_flag flags f_sp_enq };
  cons = record { head = 0; tail = 0; single = has_flag flags f_sc_deq };
  ring = r.ring;
}

fresh-IsValid :
    (r : Ringb) (flags k capacity : ℕ)
    → k ≤ 31
    → capacity < 2 ^ k
    → length r.ring ≡ 2 ^ k
    → IsValid (fresh r flags (2 ^ k) (2 ^ k - 1) capacity)
fresh-IsValid r flags k capacity k_le lt stored = record {
  bits = k;
  bits_le = k_le;
  sized = refl;
  masked = refl;
  capacity_lt = lt;
  stored = stored;
  prod_head = refl;
  cons_head = refl;
  prod_lt = omega arith;
  cons_lt = omega arith;
  used_le = omega arith;
}

mask_of : (k : ℕ) → k ≤ 31 → sub32 (2 ^ k) 1 ≡ 2 ^ k - 1
mask_of k h = omega (arith, pow_le_31 k h, pow_pos k)

-- the size with RINGB_F_EXACT_SZ
abbrev rounded : ℕ → ℕ
rounded count = roundup_pow_of_two (add32 count 1) % u32_mod

-- The two ways to succeed.
init_ok :
    (r r' : Ringb) (count flags : ℕ)
    → init r count flags ≡ (ok, r')
    → ((has_flag flags f_exact_sz ≡ true)
        × (r' ≡ fresh r flags (rounded count) (sub32 (rounded count) 1) count))
      ⊎ ((has_flag flags f_exact_sz ≡ false)
          × (is_power_of_2 count ≡ true)
          × (r' ≡ fresh r flags count (sub32 count 1) (sub32 count 1)))
unfolding init
init_ok r r' count flags = elim (Bool-cases (has_flag flags (u32_mod - 8))) [
  | inl bad ↦ rw bad (λ e. cc)
  | inr good ↦ rw good (elim (Bool-cases (has_flag flags f_exact_sz)) [
    | inl exact ↦ rw exact (λ e. inl (refl, sym (ap (λ p. p.1) e)))
    | inr plain ↦ rw plain (elim (Bool-cases (is_power_of_2 count)) [
      | inr odd ↦ rw odd (λ e. cc)
      | inl two ↦ rw two (elim (Bool-cases (ltb sz_mask count)) [
        | inl large ↦ rw large (λ e. cc)
        | inr small ↦ rw small (λ e. inr (refl, refl, sym (ap (λ p. p.1) e)))
      ])
    ])
  ])
]

rounded_pow :
    (count : ℕ) → count ≤ sz_mask → (k : ℕ) × (k ≤ 31) × (rounded count ≡ 2 ^ k) × (count < 2 ^ k)
rounded_pow count le =
    let (k, k_le, e, above, least) = roundup_exponent (add32 count 1) (omega arith) (omega arith) in
    let small : k ≤ 31 = least 31 (omega arith) in
    (
      k,
      small,
      ap (λ t. t % u32_mod) e ∙ mod-eq_of_lt (omega (arith, pow_le_31 k small)),
      omega (arith, above),
    )

-- A call that succeeds, asked for at most RINGB_SZ_MASK entries, leaves a valid, empty ring, if
-- the array behind the header has as many slots as the header says. The capacity is the number
-- asked for with RINGB_F_EXACT_SZ, and one less without.
pub init-IsValid :
    (r r' : Ringb) (count flags : ℕ)
    → count ≤ sz_mask
    → init r count flags ≡ (ok, r')
    → length r.ring ≡ r'.size
    → IsValid r'
      × (contents r' ≡ [])
      × (r'.capacity ≡ (if has_flag flags f_exact_sz then count else count - 1))
init-IsValid r r' count flags le e stored = elim (init_ok r r' count flags e) [
  | inl (exact, is) ↦
      let (k, k_le, size, lt) = rounded_pow count le in
      rw exact (
        started k count k_le (ap (λ (x : Ringb). x.size) is ∙ size) lt
          (is ∙ ap (λ t. fresh r flags t (sub32 t 1) count) size))
  | inr (plain, two, is) ↦
      let (k, pow) = exponent_of count two in
      let k_le : k < 32 = pow_cancel k 32 (omega (arith, pow)) in
      rw plain (
        started k (count - 1) (omega (arith, k_le)) (ap (λ (x : Ringb). x.size) is ∙ pow)
          (omega (arith, pow, pow_pos k))
          (is ∙ ap₂ (λ t u. fresh r flags t (sub32 t 1) u) pow (omega (arith, pow, pow_pos k))))
]
  where
    started :
        (k capacity : ℕ)
        → k ≤ 31
        → r'.size ≡ 2 ^ k
        → capacity < 2 ^ k
        → r' ≡ fresh r flags (2 ^ k) (sub32 (2 ^ k) 1) capacity
        → IsValid r' × (contents r' ≡ []) × (r'.capacity ≡ capacity)
    started k capacity k_le size lt is =
        let whole = is ∙ ap (λ t. fresh r flags (2 ^ k) t capacity) (mask_of k k_le) in
        (
          subst IsValid (sym whole) (fresh-IsValid r flags k capacity k_le lt (stored ∙ size)),
          ap contents whole,
          ap (λ (x : Ringb). x.capacity) whole,
        )
