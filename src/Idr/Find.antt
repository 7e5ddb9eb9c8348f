-- ===== src/Idr/Find.antt =====
-- The loop of `idt_next` in src/adt/idr.c: the next bit that is set, over the maps.
use mathlib.Core.Path.{subst}
use native.Mathlib.Nat.{mod-eq_of_lt, lt-div-mul-add}
use skp.Common.{
  ℕ, zero, suc, ◌+◌, ◌-◌, ◌*◌, ◌%◌, ◌^◌, ◌≤◌, ◌<◌, ◌≡◌, ◌⊎◌, inl, inr, refl, sym, ap, ◌∙◌, Bool,
  true, false, Option, Option-cases, none, some, ltb, if◌then◌else◌, arith, dec_lt, length,
}
use skp.Common.Bits.{pow_pos}
use skp.Idr.{Idt, map_at, find_next_bit, nr_pages, mk_id, next_from}
use skp.Idr.Place.{map_of, bit_of, bits_below, bits_in_page}
use skp.Idr.Valid.{page_bits, is_used, IsValid, find_next_bit_lem}

module _ (shift : ℕ) (idt : Idt) (v : IsValid shift idt) where
  -- the first id in use from place `from` on, less `offset`, or that there is none
  abbrev pub Finds : ℕ → Option ℕ → Type 0
  Finds from result =
      ((m : ℕ) × (result ≡ some m)
        × (from ≤ m)
        × (m < idt.nr_bit)
        × (is_used shift idt m ≡ true)
        × ((i : ℕ) → from ≤ i → i < m → is_used shift idt i ≡ false))
      ⊎ ((result ≡ none) × ((i : ℕ) → from ≤ i → i < idt.nr_bit → is_used shift idt i ≡ false))

  -- the use of the ids of map `k`
  used_at :
      (k bit : ℕ)
      → bit < 2 ^ shift
      → is_used shift idt (k * 2 ^ shift + bit) ≡ page_bits (map_at idt k).page bit
  used_at k bit lt =
      ap (λ j. page_bits (map_at idt j).page ((k * 2 ^ shift + bit) % 2 ^ shift))
        (map_of shift k bit lt)
      ∙ ap (page_bits (map_at idt k).page) (bit_of shift k bit lt)

  -- the bits of a page as ids
  in_map :
      (k i : ℕ)
      → k < length idt.idmap
      → k * 2 ^ shift ≤ i
      → i < k * 2 ^ shift + (map_at idt k).nr_bit
      → is_used shift idt i ≡ page_bits (map_at idt k).page (i - k * 2 ^ shift)
  in_map k i lt lo hi =
      let bit : i - k * 2 ^ shift < 2 ^ shift =
        omega (arith, hi, lo, bits_in_page shift idt v k lt) in
      let whole : i ≡ k * 2 ^ shift + (i - k * 2 ^ shift) = omega (arith, lo) in
      ap (is_used shift idt) whole ∙ used_at k (i - k * 2 ^ shift) bit

  next_start : (k : ℕ) → suc k * 2 ^ shift ≡ k * 2 ^ shift + 2 ^ shift
  next_start k = omega arith

  -- a map without a set bit from `offset` on, and what is found behind it
  module _ (k offset : ℕ) (lt : k < length idt.idmap) (in_page : offset < 2 ^ shift)
      (clear : (i : ℕ)
        → offset ≤ i
        → i < (map_at idt k).nr_bit
        → page_bits (map_at idt k).page i ≡ false) where
    gap :
        (i : ℕ)
        → k * 2 ^ shift + offset ≤ i
        → i < idt.nr_bit
        → i < suc k * 2 ^ shift
        → is_used shift idt i ≡ false
    gap i p q r =
        let inside : i < k * 2 ^ shift + (map_at idt k).nr_bit =
          omega (arith, v.nr_bits k, next_start k, p, q, r) in
        in_map k i lt (omega (arith, p)) inside
        ∙ clear (i - k * 2 ^ shift) (omega (arith, p)) (omega (arith, p, inside))

    all_clear :
        (to : ℕ)
        → to ≤ idt.nr_bit
        → ((i : ℕ) → suc k * 2 ^ shift ≤ i → i < to → is_used shift idt i ≡ false)
        → (i : ℕ) → k * 2 ^ shift + offset ≤ i
        → i < to
        → is_used shift idt i ≡ false
    all_clear to le later i p q = elim (dec_lt i (suc k * 2 ^ shift)) [
      | yes here ↦ gap i p (omega (arith, q, le)) here
      | no behind ↦ later i (omega (arith, behind)) q
    ]

    skip :
        (result : Option ℕ)
        → Finds (suc k * 2 ^ shift) result
        → Finds (k * 2 ^ shift + offset) result
    skip result (inl (m, runs, lo, hi, is, before)) = inl (
      m,
      runs,
      omega (arith, lo, next_start k, in_page),
      hi,
      is,
      all_clear m (omega (arith, hi)) before,
    )
    skip result (inr (runs, before)) = inr (runs, all_clear idt.nr_bit (omega arith) before)

  -- a bit that is set
  hit :
      (k offset bit : ℕ) (page : ℕ → Bool)
      → k < length idt.idmap
      → (map_at idt k).page ≡ some page
      → offset ≤ bit
      → bit < (map_at idt k).nr_bit
      → page bit ≡ true
      → ((i : ℕ) → offset ≤ i → i < bit → page i ≡ false)
      → Finds (k * 2 ^ shift + offset) (some (mk_id shift k bit))
  hit k offset bit page lt there lo hi is before =
      let reads : (i : ℕ) → page_bits (map_at idt k).page i ≡ page i =
        λ i. ap (λ (o : Option (ℕ → Bool)). page_bits o i) there in
      let fits : k * 2 ^ shift + bit < idt.nr_bit =
        omega (arith, hi, bits_below shift idt v k lt) in
      inl (
        k * 2 ^ shift + bit,
        ap some (mod-eq_of_lt (omega (arith, fits, v.small))),
        omega (arith, lo),
        fits,
        used_at k bit (omega (arith, hi, bits_in_page shift idt v k lt)) ∙ reads bit ∙ is,
        λ i p q.
            in_map k i lt (omega (arith, p)) (omega (arith, q, hi))
            ∙ reads (i - k * 2 ^ shift)
            ∙ before (i - k * 2 ^ shift) (omega (arith, p)) (omega (arith, p, q)),
      )

  pub next_from-Finds :
      (k offset n : ℕ)
      → k + n ≡ nr_pages shift idt.nr_bit
      → offset < 2 ^ shift
      → Finds (k * 2 ^ shift + offset) (next_from shift idt k offset n)
  unfolding next_from
  next_from-Finds k offset zero e in_page =
      let same : nr_pages shift idt.nr_bit ≡ k = omega (arith, e) in
      let end : idt.nr_bit ≤ k * 2 ^ shift = omega (
        arith,
        lt-div-mul-add {a = idt.nr_bit + 2 ^ shift - 1} {b = 2 ^ shift} (pow_pos shift),
        ap (λ t. t * 2 ^ shift) same,
      ) in
      inr (refl, λ i p q. absurd (omega (arith, p, q, end)))
  next_from-Finds k offset (suc n) e in_page =
      let lt : k < length idt.idmap = omega (arith, e, v.maps) in
      let rest = next_from shift idt (suc k) 0 n in
      let start : suc k * 2 ^ shift + 0 ≡ suc k * 2 ^ shift = omega arith in
      let later : Finds (suc k * 2 ^ shift) rest =
        subst (λ t. Finds t rest) start
          (next_from-Finds (suc k) 0 n (omega (arith, e)) (pow_pos shift)) in
      elim (Option-cases (map_at idt k).page) [
        | inl missing ↦ subst (Finds (k * 2 ^ shift + offset)) (sym (ap with_page missing)) (
            skip k offset lt in_page
              (λ i p q. ap (λ (o : Option (ℕ → Bool)). page_bits o i) missing) rest later)
        | inr (page, there) ↦ elim (find_next_bit_lem page (map_at idt k).nr_bit offset) [
          | inl (lo, hi, is, before) ↦
              subst (Finds (k * 2 ^ shift + offset)) (sym (ap with_page there ∙ ground (arith, hi)))
                (hit k offset (find_next_bit page (map_at idt k).nr_bit offset) page lt there lo hi
                  is before)
          | inr (nothing, before) ↦
              subst (Finds (k * 2 ^ shift + offset))
                (sym (ap with_page there ∙ ground (arith, nothing)))
                (skip k offset lt in_page
                  (λ i p q. ap (λ (o : Option (ℕ → Bool)). page_bits o i) there ∙ before i p q) rest
                  later)
        ]
      ]
    where
      with_page : Option (ℕ → Bool) → Option ℕ
      with_page none = next_from shift idt (suc k) 0 n
      with_page (some page) =
          let bit = find_next_bit page (map_at idt k).nr_bit offset in
          if ltb bit (map_at idt k).nr_bit
          then some (mk_id shift k bit)
          else next_from shift idt (suc k) 0 n
