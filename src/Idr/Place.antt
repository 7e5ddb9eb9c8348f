-- ===== src/Idr/Place.antt =====
-- The ids of src/adt/idr.c as places: a map of 2 ^ shift bits, and a bit in it.
use native.Mathlib.Nat.{
  mod-lt, div-add-mod', div-eq_of_lt, add-mul-div_right, div-lt_iff_lt-mul, lt-div-mul-add,
  div-mul-le_self, mul-le-mul_right,
}
use skp.Common.{
  ℕ, suc, ◌+◌, ◌-◌, ◌*◌, ◌/◌, ◌%◌, ◌^◌, ◌≤◌, ◌<◌, ◌≡◌, ap, ◌∙◌, ◌≢◌, Bool, ◌==◌, if◌then◌else◌,
  ℕ_discrete, arith, length,
}
use skp.Common.Bits.{pow_pos}
use skp.Idr.{Idt, map_at, store_bit, nr_pages}
use skp.Idr.Valid.{page_bits, is_used, IsValid}

module _ (shift : ℕ) where
  pub map_of : (k bit : ℕ) → bit < 2 ^ shift → (k * 2 ^ shift + bit) / 2 ^ shift ≡ k
  map_of k bit lt =
      let swapped : k * 2 ^ shift + bit ≡ bit + k * 2 ^ shift = omega arith in
      ap (λ n. n / 2 ^ shift) swapped
      ∙ add-mul-div_right bit k (pow_pos shift)
      ∙ omega (arith, div-eq_of_lt lt)

  pub bit_of : (k bit : ℕ) → bit < 2 ^ shift → (k * 2 ^ shift + bit) % 2 ^ shift ≡ bit
  bit_of k bit lt = omega (
    arith,
    div-add-mod' (k * 2 ^ shift + bit) (2 ^ shift),
    ap (λ q. q * 2 ^ shift) (map_of k bit lt),
  )

  pub id_of : (n k bit : ℕ) → n / 2 ^ shift ≡ k → n % 2 ^ shift ≡ bit → n ≡ k * 2 ^ shift + bit
  id_of n k bit p q = omega (arith, div-add-mod' n (2 ^ shift), ap (λ t. t * 2 ^ shift) p, q)

  pub page_start : (k nr_bit : ℕ) → 0 < nr_bit → k < nr_pages shift nr_bit → k * 2 ^ shift < nr_bit
  page_start k nr_bit some_bit lt =
      let all = nr_bit + 2 ^ shift - 1 in
      let up : suc k * 2 ^ shift ≤ all / 2 ^ shift * 2 ^ shift = mul-le-mul_right (2 ^ shift) lt in
      let next : suc k * 2 ^ shift ≡ k * 2 ^ shift + 2 ^ shift = omega arith in
      omega (arith, up, next, div-mul-le_self all (2 ^ shift), pow_pos shift, some_bit)

  pub in_pages : (n nr_bit : ℕ) → n < nr_bit → n / 2 ^ shift < nr_pages shift nr_bit
  in_pages n nr_bit lt =
      let all = nr_bit + 2 ^ shift - 1 in
      (div-lt_iff_lt-mul {k = 2 ^ shift} {x = n} {y = all / 2 ^ shift} (pow_pos shift)).1
        (omega (arith, lt, lt-div-mul-add {a = all} {b = 2 ^ shift} (pow_pos shift)))

  pub some_page : (nr_bit : ℕ) → 0 < nr_bit → 0 < nr_pages shift nr_bit
  some_page nr_bit some_bit = omega (arith, in_pages 0 nr_bit some_bit)

  module _ (idt : Idt) (v : IsValid shift idt) (k : ℕ) (lt : k < length idt.idmap) where
    pub start_below : k * 2 ^ shift < idt.nr_bit
    start_below = page_start k idt.nr_bit v.sized (omega (arith, lt, v.maps))

    pub some_bits : 0 < (map_at idt k).nr_bit
    some_bits = omega (arith, v.nr_bits k, start_below, pow_pos shift)

    pub bits_below : k * 2 ^ shift + (map_at idt k).nr_bit ≤ idt.nr_bit
    bits_below = omega (arith, v.nr_bits k, start_below)

    pub bits_in_page : (map_at idt k).nr_bit ≤ 2 ^ shift
    bits_in_page = omega (arith, v.nr_bits k)

  -- the place of an id
  module _ (idt : Idt) (v : IsValid shift idt) (n : ℕ) (lt : n < idt.nr_bit) where
    pub map_below : n / 2 ^ shift < length idt.idmap
    map_below = omega (arith, in_pages n idt.nr_bit lt, v.maps)

    pub bit_below : n % 2 ^ shift < (map_at idt (n / 2 ^ shift)).nr_bit
    bit_below =
        omega (
          arith,
          v.nr_bits (n / 2 ^ shift),
          div-add-mod' n (2 ^ shift),
          mod-lt n (pow_pos shift),
          lt,
        )

  -- Writing one bit of a page changes the use of one id.
  pub store_bit-used :
      (idt : Idt) (k bit : ℕ) (page : ℕ → Bool) (b : Bool) (m : ℕ)
      → bit < 2 ^ shift
      → ((i : ℕ) → page i ≡ page_bits (map_at idt k).page i)
      → (if k == m / 2 ^ shift then store_bit page bit b (m % 2 ^ shift) else is_used shift idt m)
        ≡ (if m == k * 2 ^ shift + bit then b else is_used shift idt m)
  store_bit-used idt k bit page b m lt same = elim (ℕ_discrete (m / 2 ^ shift) k) [
    | no ne ↦
        let other : m ≢ k * 2 ^ shift + bit =
          λ e. ne (ap (λ n. n / 2 ^ shift) e ∙ map_of k bit lt) in
        ground (arith, ne, other)
    | yes here ↦ elim (ℕ_discrete (m % 2 ^ shift) bit) [
      | yes at ↦ ground (arith, here, at, id_of m k bit here at)
      | no ne ↦
          let other : m ≢ k * 2 ^ shift + bit =
            λ e. ne (ap (λ n. n % 2 ^ shift) e ∙ bit_of k bit lt) in
          ground (
            arith,
            here,
            ne,
            other,
            same (m % 2 ^ shift),
            ap (λ j. page_bits (map_at idt j).page (m % 2 ^ shift)) here,
          )
    ]
  ]
