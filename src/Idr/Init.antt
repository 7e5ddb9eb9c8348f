-- ===== src/Idr/Init.antt =====
-- `idt_init` of src/adt/idr.c.
use Prim.Native.Nat.{bit_and}
use native.Mathlib.Nat.{mul-le-mul_right, lt-div-mul-add}
use skp.Common.{
  true, ℕ, zero, suc, ◌+◌, ◌-◌, ◌*◌, ◌/◌, ◌%◌, ◌^◌, ◌≤◌, ◌<◌, ◌≡◌, ◌⊎◌, inl, inr, refl, sym, ap,
  ◌∙◌, min, Bool, false, ◌||◌, Bool-cases, Option, none, ◌==◌, ltb, leb, if◌then◌else◌, arith,
  ℕ_discrete, dec_lt, length, get_or,
}
use skp.Common.Bits.{pow_pos, bit_and_mask}
use skp.Common.Word.{u32_mod, add32, sub32}
use skp.Idr.{
  Idt, InitResult, bug, enomem, made, no_map, map_at, s32_max, nr_pages, init_maps, idt_init,
}
use skp.Idr.Place.{page_start, some_page, bit_of}
use skp.Idr.Valid.{zeros, zeros-all, page_bits, sum_free, is_used, IsValid}

module _ (shift last : ℕ) where
  length-init_maps : (n : ℕ) → length (init_maps shift last n) ≡ suc n
  unfolding init_maps
  length-init_maps zero = refl
  length-init_maps (suc n) = ap suc (length-init_maps n)

  sum_free-init_maps : (n : ℕ) → sum_free (init_maps shift last n) ≡ n * 2 ^ shift + last
  unfolding init_maps
  sum_free-init_maps zero = omega arith
  sum_free-init_maps (suc n) = omega (arith, sum_free-init_maps n)

  init_maps-bits :
      (n k : ℕ)
      → (get_or (init_maps shift last n) k no_map).nr_bit
        ≡ (if ltb k n then 2 ^ shift else if k == n then last else 0)
  unfolding init_maps
  init_maps-bits zero zero = ground arith
  init_maps-bits zero (suc k) = ground arith
  init_maps-bits (suc n) zero = ground arith
  init_maps-bits (suc n) (suc k) = ground (arith, init_maps-bits n k)

  init_maps-clear :
      (n k : ℕ)
      → ((get_or (init_maps shift last n) k no_map).page ≡ none)
        × ((get_or (init_maps shift last n) k no_map).nr_free
            ≡ (get_or (init_maps shift last n) k no_map).nr_bit)
  unfolding init_maps
  init_maps-clear zero zero = (refl, refl)
  init_maps-clear zero (suc k) = (refl, refl)
  init_maps-clear (suc n) zero = (refl, refl)
  init_maps-clear (suc n) (suc k) = init_maps-clear n k

-- where the last map begins and ends
module _ (shift nr_bit : ℕ) (some_bit : 0 < nr_bit) where
  abbrev before : ℕ
  before = nr_pages shift nr_bit - 1

  last_start : before * 2 ^ shift < nr_bit
  last_start =
      page_start shift before nr_bit some_bit (omega (arith, some_page shift nr_bit some_bit))

  last_end : nr_bit ≤ before * 2 ^ shift + 2 ^ shift
  last_end =
      let pages = nr_pages shift nr_bit in
      let whole : pages ≡ suc before = omega (arith, some_page shift nr_bit some_bit) in
      let next : suc before * 2 ^ shift ≡ before * 2 ^ shift + 2 ^ shift = omega arith in
      omega (
        arith,
        lt-div-mul-add {a = nr_bit + 2 ^ shift - 1} {b = 2 ^ shift} (pow_pos shift),
        ap (λ p. p * 2 ^ shift) whole,
        next,
      )

  abbrev last_bits : ℕ
  last_bits =
      if bit_and nr_bit (2 ^ shift - 1) == 0 then 2 ^ shift else bit_and nr_bit (2 ^ shift - 1)

  last_bits_lem : last_bits ≡ nr_bit - before * 2 ^ shift
  last_bits_lem = elim (dec_lt (nr_bit - before * 2 ^ shift) (2 ^ shift)) [
    | yes part ↦
        let here : nr_bit ≡ before * 2 ^ shift + (nr_bit - before * 2 ^ shift) =
          omega (arith, last_start) in
        let rest : nr_bit % 2 ^ shift ≡ nr_bit - before * 2 ^ shift =
          ap (λ n. n % 2 ^ shift) here ∙ bit_of shift before (nr_bit - before * 2 ^ shift) part in
        ground (arith, bit_and_mask shift nr_bit, rest, last_start)
    | no full ↦
        let here : nr_bit ≡ suc before * 2 ^ shift + 0 =
          omega (arith, last_start, last_end, full) in
        let rest : nr_bit % 2 ^ shift ≡ 0 =
          ap (λ n. n % 2 ^ shift) here ∙ bit_of shift (suc before) 0 (pow_pos shift) in
        ground (arith, bit_and_mask shift nr_bit, rest, last_start, last_end, full)
  ]

  map_bits :
      (k : ℕ)
      → (if ltb k before then 2 ^ shift else if k == before then last_bits else 0)
        ≡ min (2 ^ shift) (nr_bit - k * 2 ^ shift)
  map_bits k = elim (dec_lt k before) [
    | yes lt ↦
        let up : suc k * 2 ^ shift ≤ before * 2 ^ shift = mul-le-mul_right (2 ^ shift) lt in
        let next : suc k * 2 ^ shift ≡ k * 2 ^ shift + 2 ^ shift = omega arith in
        ground (arith, lt, up, next, last_start)
    | no from ↦ elim (ℕ_discrete k before) [
      | yes e ↦ ground (arith, e, last_bits_lem, last_end, ap (λ j. j * 2 ^ shift) e)
      | no ne ↦
          let up : suc before * 2 ^ shift ≤ k * 2 ^ shift =
            mul-le-mul_right (2 ^ shift) (omega (arith, from, ne)) in
          let next : suc before * 2 ^ shift ≡ before * 2 ^ shift + 2 ^ shift = omega arith in
          ground (arith, from, ne, up, next, last_end)
    ]
  ]

-- the allocator that `idt_init` makes
module _ (shift start nr_bit : ℕ) (some_bit : 0 < nr_bit) (small : start + nr_bit < 2 ^ 31) where
  abbrev bits : ℕ
  bits = last_bits shift nr_bit some_bit

  abbrev fresh : Idt
  fresh = record {
    nr_free = nr_bit;
    offset = start;
    nr_bit = nr_bit;
    last = u32_mod - 1;
    idmap = init_maps shift bits (nr_pages shift nr_bit - 1);
  }

  fresh-IsValid : IsValid shift fresh
  fresh-IsValid =
      let n = nr_pages shift nr_bit - 1 in
      record {
        sized = some_bit;
        small = small;
        maps = omega (arith, length-init_maps shift bits n, some_page shift nr_bit some_bit);
        nr_bits = λ k. init_maps-bits shift bits n k ∙ map_bits shift nr_bit some_bit k;
        counts = λ k.
            let (no_page, all_free) = init_maps-clear shift bits n k in
            all_free
            ∙ sym (zeros-all (map_at fresh k).nr_bit)
            ∙ ap (λ (o : Option (ℕ → Bool)). zeros (page_bits o) (map_at fresh k).nr_bit)
                (sym no_page);
        total = omega (
          arith,
          sum_free-init_maps shift bits n,
          last_bits_lem shift nr_bit some_bit,
          last_start shift nr_bit some_bit,
        );
        recent = inl refl;
      }

  fresh_unused : (m : ℕ) → is_used shift fresh m ≡ false
  fresh_unused m =
      ap (λ (o : Option (ℕ → Bool)). page_bits o (m % 2 ^ shift))
        (init_maps-clear shift bits (nr_pages shift nr_bit - 1) (m / 2 ^ shift)).0

-- What `idt_init` takes: `end` is above `start`, and it and the number of ids are below S32_MAX.
abbrev pub IsRange : ℕ → ℕ → Type 0
IsRange start end = (start < end) × (end < s32_max) × (end - start + 1 < s32_max)

-- What `idt_init` does with the range from `start` to `end`; the three cases exclude each other.
abbrev pub Starts : ℕ → Bool → ℕ → ℕ → InitResult → Type 0
Starts shift memory start end result =
    ((idt : Idt) × (result ≡ made idt)
      × IsRange start end
      × (memory ≡ true)
      × IsValid shift idt
      × (idt.offset ≡ start)
      × (idt.offset + idt.nr_bit ≡ end + 1)
      × (idt.nr_free ≡ idt.nr_bit)
      × ((m : ℕ) → is_used shift idt m ≡ false))
    ⊎ (((result ≡ enomem) × IsRange start end × (memory ≡ false))
        ⊎ ((result ≡ bug) × ((end ≤ start) ⊎ ((s32_max ≤ end) ⊎ (s32_max ≤ end - start + 1)))))

-- For 32-bit bounds `idt_init` makes an allocator of the ids from `start` to `end`, both included, that is as it is
-- between calls and has no id in use, exactly where `end` is above `start`, `end` and the number of ids are below
-- S32_MAX, and the maps can be had. It returns -ENOMEM exactly where the range is such a one and the maps cannot be
-- had, and it aborts exactly where the range is not such a one.
pub idt_init-Starts :
    (shift : ℕ) (memory : Bool) (start end : ℕ)
    → start < u32_mod
    → end < u32_mod
    → Starts shift memory start end (idt_init shift memory start end)
unfolding idt_init
idt_init-Starts shift memory start end p q =
    let nr_bit = add32 (sub32 end start) 1 in
    let refuses = leb end start || leb s32_max start || leb s32_max end || leb s32_max nr_bit in
    elim (dec_lt start end) [
      | no back ↦ inr (inr (ground (arith, back), inl (omega (arith, back))))
      | yes forth ↦ elim (dec_lt end s32_max) [
        | no large ↦ inr (inr (ground (arith, large), inr (inl (omega (arith, large)))))
        | yes fits ↦
            let number : nr_bit ≡ end - start + 1 = omega (arith, forth, fits) in
            elim (dec_lt nr_bit s32_max) [
              | no many ↦ inr (inr (ground (arith, many), inr (inr (omega (arith, many, number)))))
              | yes few ↦
                  let range : IsRange start end = (forth, fits, omega (arith, few, number)) in
                  let taken : refuses ≡ false = ground (arith, forth, fits, few) in
                  let some_bit : 0 < nr_bit = omega (arith, number) in
                  let small : start + nr_bit < 2 ^ 31 = omega (arith, number, fits, forth) in
                  elim (Bool-cases memory) [
                    | inr want ↦ inr (inl (ground (arith, taken, want), range, want))
                    | inl has ↦ inl (
                      fresh shift start nr_bit some_bit small,
                      ground (arith, taken, has),
                      range,
                      has,
                      fresh-IsValid shift start nr_bit some_bit small,
                      refl,
                      omega (arith, number, forth),
                      refl,
                      fresh_unused shift start nr_bit some_bit small,
                    )
                  ]
            ]
      ]
    ]
