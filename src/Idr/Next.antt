-- ===== src/Idr/Next.antt =====
-- `idt_next` of src/adt/idr.c, against a search of the ids one after another.
use Prim.Native.Nat.{bit_and}
use native.Mathlib.Nat.{mod-lt, div-add-mod', mod-eq_of_lt}
use skp.Common.{
  ℕ, zero, suc, ◌+◌, ◌-◌, ◌*◌, ◌/◌, ◌%◌, ◌^◌, ◌≤◌, ◌<◌, ◌≡◌, inl, inr, refl, sym, ap, ◌∙◌, Bool,
  true, false, Option, none, some, if◌then◌else◌, arith, ℕ_discrete,
}
use skp.Common.Bits.{pow_pos, bit_and_mask}
use skp.Common.Word.{add32}
use skp.Common.Int.{pos}
use skp.Idr.{Idt, check_idt, nr_pages, next_from, idt_next}
use skp.Idr.Find.{next_from-Finds}
use skp.Idr.Place.{in_pages}
use skp.Idr.Valid.{is_used, IsValid}
use skp.Idr.Remove.{in_use}

-- the first of the `n` ids from `id` on that is in use
abbrev pub search_ids : (ℕ → Bool) → ℕ → ℕ → Option ℕ
search_ids used id zero = none
search_ids used id (suc n) =
    let rest = search_ids used (suc id) n in if used id then some id else rest

search_ids-found :
    (used : ℕ → Bool) (id n j : ℕ)
    → id ≤ j
    → j < id + n
    → used j ≡ true
    → ((i : ℕ) → id ≤ i → i < j → used i ≡ false)
    → search_ids used id n ≡ some j
search_ids-found used id zero j lo hi is before = absurd (omega (arith, lo, hi))
search_ids-found used id (suc n) j lo hi is before = elim (ℕ_discrete id j) [
  | yes e ↦ let here : used id ≡ true = ap used e ∙ is in ground (arith, here, e)
  | no ne ↦
      let skip : used id ≡ false = before id (omega arith) (omega (arith, lo, ne)) in
      ground (
        arith,
        skip,
        search_ids-found used (suc id) n j (omega (arith, lo, ne)) (omega (arith, hi)) is
            (λ i p q. before i (omega (arith, p)) q),
      )
]

search_ids-none :
    (used : ℕ → Bool) (id n : ℕ)
    → ((i : ℕ) → id ≤ i → i < id + n → used i ≡ false)
    → search_ids used id n ≡ none
search_ids-none used id zero h = refl
search_ids-none used id (suc n) h = ground (
  arith,
  h id (omega arith) (omega arith),
  search_ids-none used (suc id) n (λ i p q. h i (omega (arith, p)) (omega (arith, q))),
)

module _ (shift : ℕ) (idt : Idt) where
  in_use_at :
      (j : ℕ)
      → idt.offset ≤ j
      → j < idt.offset + idt.nr_bit
      → in_use shift idt j ≡ is_used shift idt (j - idt.offset)
  in_use_at j lo hi = ground (arith, lo, hi)

  abbrev with_offset : Option ℕ → Option ℕ
  with_offset none = none
  with_offset (some next) = some (add32 next idt.offset)

  idt_next_steps :
      (id : ℕ)
      → idt.offset ≤ id
      → id < idt.offset + idt.nr_bit
      → (let n = id - idt.offset in
          let k = n / 2 ^ shift in
          idt_next shift idt (pos id)
          ≡ with_offset (next_from shift idt k (n % 2 ^ shift) (nr_pages shift idt.nr_bit - k)))
  unfolding idt_next
  idt_next_steps id lo hi =
      let n = id - idt.offset in
      let k = n / 2 ^ shift in
      let goes : ℕ → Option ℕ =
        λ bit. with_offset (next_from shift idt k bit (nr_pages shift idt.nr_bit - k)) in
      let inside : check_idt idt (pos id) ≡ true = ground (arith, lo, hi) in
      ap (λ b. if b then goes (bit_and n (2 ^ shift - 1)) else none) inside
      ∙ ap goes (bit_and_mask shift n)

-- In an allocator between calls, `idt_next` from an id of the range gives the first id in use from it on, as a search
-- of the ids one after another up to the last does, or -ENOENT where that finds none.
pub idt_next-search_ids :
    (shift : ℕ) (idt : Idt) (id : ℕ)
    → IsValid shift idt
    → idt.offset ≤ id
    → id < idt.offset + idt.nr_bit
    → idt_next shift idt (pos id) ≡ search_ids (in_use shift idt) id (idt.offset + idt.nr_bit - id)
idt_next-search_ids shift idt id v lo hi =
    let n = id - idt.offset in
    let k = n / 2 ^ shift in
    let pages = nr_pages shift idt.nr_bit in
    let k_below : k < pages = in_pages shift n idt.nr_bit (omega (arith, lo, hi)) in
    let whole : k * 2 ^ shift + n % 2 ^ shift ≡ n = omega (arith, div-add-mod' n (2 ^ shift)) in
    let at = in_use_at shift idt in
    idt_next_steps shift idt id lo hi
    ∙ elim (next_from-Finds shift idt v k (n % 2 ^ shift) (pages - k) (omega (arith, k_below))
        (mod-lt n (pow_pos shift))) [
          | inl (m, runs, from, below, is, before) ↦
              let sum : add32 m idt.offset ≡ m + idt.offset =
                mod-eq_of_lt (omega (arith, below, v.small)) in
              let back : m + idt.offset - idt.offset ≡ m = omega arith in
              ap (with_offset shift idt) runs
              ∙ ap some sum
              ∙ sym (
                  search_ids-found (in_use shift idt) id (idt.offset + idt.nr_bit - id)
                    (m + idt.offset) (omega (arith, from, whole, lo)) (omega (arith, below, hi))
                    (at (m + idt.offset) (omega arith) (omega (arith, below))
                      ∙ ap (is_used shift idt) back
                      ∙ is)
                    (λ i p q.
                      at i (omega (arith, p, lo)) (omega (arith, q, below))
                      ∙ before (i - idt.offset) (omega (arith, p, whole))
                          (omega (arith, q, p, lo))))
          | inr (runs, before) ↦
              ap (with_offset shift idt) runs
              ∙ sym (
                  search_ids-none (in_use shift idt) id (idt.offset + idt.nr_bit - id) (λ i p q.
                    at i (omega (arith, p, lo)) (omega (arith, q, hi))
                    ∙ before (i - idt.offset) (omega (arith, p, whole))
                        (omega (arith, q, p, lo, hi))))
        ]
