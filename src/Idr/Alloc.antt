-- ===== src/Idr/Alloc.antt =====
-- `idt_alloc` of src/adt/idr.c.
use mathlib.Core.Path.{subst, ap₂}
use native.Mathlib.Nat.{div-add-mod'}
use Prim.Native.Nat.{bit_and}
use skp.Common.{
  ℕ, zero, suc, ◌+◌, ◌-◌, ◌*◌, ◌/◌, ◌%◌, ◌^◌, ◌≤◌, ◌<◌, ◌≡◌, ◌⊎◌, inl, inr, refl, sym, ap, ◌∙◌,
  Bool, false, Option, none, ◌==◌, leb, if◌then◌else◌, length, arith, ℕ_discrete, dec_lt,
}
use skp.Common.Bits.{bit_and_mask}
use skp.Common.Word.{add32}
use skp.Idr.{Idt, map_at, nr_pages, alloc_from, idt_alloc}
use skp.Idr.Place.{in_pages, some_bits, bit_below}
use skp.Idr.Valid.{sum_free-none, IsValid}
use skp.Idr.Claim.{Keeps, Keeps-refl, Keeps-trans, Found, Found-after}
use skp.Idr.Turn.{next_map, turn}

module _ (shift : ℕ) (memory : ℕ → Bool) where
  -- the maps that `n` turns from map `k` on come to
  abbrev Visited : ℕ → ℕ → ℕ → ℕ → Type 0
  Visited pages k n j = ((k ≤ j) × (j < k + n)) ⊎ (j + pages < k + n)

  -- The loop finds an id, or stops for want of memory, or has seen that no map it came to has a free id.
  abbrev Searched : ℕ → Idt → ℕ → ℕ → Option ℕ × Idt → Type 0
  Searched pages idt k n result =
      Found shift idt result
      ⊎ ((idt' : Idt) × (result ≡ (none, idt'))
          × Keeps shift idt idt'
          × (((m : ℕ) × (memory m ≡ false))
              ⊎ ((j : ℕ) → j < pages → Visited pages k n j → (map_at idt j).nr_free ≡ 0)))

  visit_next :
      (pages k n j : ℕ)
      → k < pages
      → j < pages
      → Visited pages k (suc n) j
      → (j ≡ k) ⊎ Visited pages (next_map pages k) n j
  visit_next pages k n j p q (inl (lo, hi)) = elim (ℕ_discrete j k) [
    | yes e ↦ inl e
    | no ne ↦ inr (inl (ground (arith, p, q, lo, hi, ne), ground (arith, p, q, lo, hi, ne)))
  ]
  visit_next pages k n j p q (inr hi) = elim (dec_lt k (pages - 1)) [
    | yes lt ↦ inr (inr (ground (arith, p, q, hi, lt)))
    | no last ↦ inr (inl (ground (arith, p, q, hi, last), ground (arith, p, q, hi, last)))
  ]

  -- the rest of the search, after a turn that found nothing
  after :
      (pages : ℕ) (idt z : Idt) (k n : ℕ) (result : Option ℕ × Idt)
      → k < pages
      → Keeps shift idt z
      → (map_at idt k).nr_free ≡ 0
      → Searched pages z (next_map pages k) n result
      → Searched pages idt k (suc n) result
  after pages idt z k n result lt keeps full (inl found) =
      inl (Found-after shift idt z result keeps found)
  after pages idt z k n result lt keeps full (inr (last, runs, kept, inl want)) =
      inr (last, runs, Keeps-trans shift idt z last keeps kept, inl want)
  after pages idt z k n result lt keeps full (inr (last, runs, kept, inr seen)) = inr (
    last,
    runs,
    Keeps-trans shift idt z last keeps kept,
    inr (λ j below visited. elim (visit_next pages k n j lt below visited) [
      | inl here ↦ ap (λ i. (map_at idt i).nr_free) here ∙ full
      | inr later ↦ sym (keeps.each_free j) ∙ seen j below later
    ]),
  )

  search :
      (pages : ℕ) (idt : Idt) (k n : ℕ)
      → IsValid shift idt
      → pages ≡ length idt.idmap
      → k < pages
      → Searched pages idt k n (alloc_from shift memory pages idt k 0 (k * 2 ^ shift + 0) n)
  unfolding alloc_from
  search pages idt k zero v all lt = inr (
    idt,
    refl,
    Keeps-refl shift idt v,
    inr (λ j below visited. elim visited [
      | inl (lo, hi) ↦ absurd (omega (arith, lo, hi))
      | inr hi ↦ absurd (omega (arith, hi, lt))
    ]),
  )
  search pages idt k (suc n) v all lt =
      elim (turn shift memory pages idt k 0 n v (omega (arith, lt, all))
        (some_bits shift idt v k (omega (arith, lt, all))) all) [
          | inl found ↦ inl found
          | inr (inl (runs, want)) ↦ inr (idt, runs, Keeps-refl shift idt v, inl (n, want))
          | inr (inr (z, keeps, runs, full)) ↦
              let next_below : next_map pages k < pages = ground (arith, lt) in
              let same_maps : pages ≡ length z.idmap =
                omega (arith, all, v.maps, keeps.valid.maps, ap (nr_pages shift) keeps.same_bits) in
              subst (Searched pages idt k (suc n)) (sym runs) (
                after pages idt z k n
                  (alloc_from shift memory pages z (next_map pages k) 0
                    (next_map pages k * 2 ^ shift + 0) n)
                  lt keeps (full refl)
                  (search pages z (next_map pages k) n keeps.valid same_maps next_below))
        ]

  -- What `idt_alloc` may do: an id that was free is used, or nothing is, where all are in use or no page could be had.
  abbrev pub Allocates : Idt → Option ℕ × Idt → Type 0
  Allocates idt result =
      Found shift idt result
      ⊎ ((idt' : Idt) × (result ≡ (none, idt'))
          × Keeps shift idt idt'
          × ((idt.nr_free ≡ 0) ⊎ ((m : ℕ) × (memory m ≡ false))))

  Allocates-after :
      (idt z : Idt) (result : Option ℕ × Idt)
      → Keeps shift idt z
      → Allocates z result
      → Allocates idt result
  Allocates-after idt z result keeps (inl found) = inl (Found-after shift idt z result keeps found)
  Allocates-after idt z result keeps (inr (last, runs, kept, inl full)) =
      inr (last, runs, Keeps-trans shift idt z last keeps kept, inl (sym keeps.same_free ∙ full))
  Allocates-after idt z result keeps (inr (last, runs, kept, inr want)) =
      inr (last, runs, Keeps-trans shift idt z last keeps kept, inr want)

  searched_all :
      (pages : ℕ) (idt : Idt) (k : ℕ) (result : Option ℕ × Idt)
      → IsValid shift idt
      → pages ≡ length idt.idmap
      → k < pages
      → Searched pages idt k pages result
      → Allocates idt result
  searched_all pages idt k result v all lt (inl found) = inl found
  searched_all pages idt k result v all lt (inr (last, runs, keeps, inl want)) =
      inr (last, runs, keeps, inr want)
  searched_all pages idt k result v all lt (inr (last, runs, keeps, inr seen)) =
      let none_free : (j : ℕ) → j < length idt.idmap → (map_at idt j).nr_free ≡ 0 = λ j below.
        let here : j < pages = omega (arith, below, all) in
        seen j here (elim (dec_lt j k) [
          | yes before ↦ inr (omega (arith, before))
          | no from ↦ inl (omega (arith, from), omega (arith, here))
        ]) in
      inr (last, runs, keeps, inl (v.total ∙ sum_free-none idt.idmap none_free))

  -- the search of every map, from the first bit of one on
  whole_search :
      (pages : ℕ) (idt : Idt) (k : ℕ)
      → IsValid shift idt
      → pages ≡ length idt.idmap
      → k < pages
      → Allocates idt (alloc_from shift memory pages idt k 0 (k * 2 ^ shift + 0) pages)
  whole_search pages idt k v all lt =
      searched_all pages idt k (alloc_from shift memory pages idt k 0 (k * 2 ^ shift + 0) pages) v
        all lt (search pages idt k pages v all lt)

  -- the search from a place in the middle of a map: its turn, and one turn for every map
  from_middle :
      (pages : ℕ) (idt : Idt) (k offset : ℕ)
      → IsValid shift idt
      → pages ≡ length idt.idmap
      → k < pages
      → offset < (map_at idt k).nr_bit
      → Allocates idt
          (alloc_from shift memory pages idt k offset (k * 2 ^ shift + offset) (suc pages))
  from_middle pages idt k offset v all lt below =
      elim (turn shift memory pages idt k offset pages v (omega (arith, lt, all)) below all) [
        | inl found ↦ inl found
        | inr (inl (runs, want)) ↦ inr (idt, runs, Keeps-refl shift idt v, inr (pages, want))
        | inr (inr (z, keeps, runs, full)) ↦
            let next_below : next_map pages k < pages = ground (arith, lt) in
            let same_maps : pages ≡ length z.idmap =
              omega (arith, all, v.maps, keeps.valid.maps, ap (nr_pages shift) keeps.same_bits) in
            subst (Allocates idt) (sym runs) (
              Allocates-after idt z
                (alloc_from shift memory pages z (next_map pages k) 0
                  (next_map pages k * 2 ^ shift + 0) pages)
                keeps (whole_search pages z (next_map pages k) keeps.valid same_maps next_below))
      ]

  -- the search from the place of an id
  from_id :
      (idt : Idt) (id : ℕ)
      → IsValid shift idt
      → id < idt.nr_bit
      → Allocates idt (
          alloc_from shift memory
            (nr_pages shift idt.nr_bit)
            idt
            (id / 2 ^ shift)
            (bit_and id (2 ^ shift - 1))
            id
            (suc (nr_pages shift idt.nr_bit - (if bit_and id (2 ^ shift - 1) == 0 then 1 else 0))))
  from_id idt id v below =
      let pages = nr_pages shift idt.nr_bit in
      let k = id / 2 ^ shift in
      let offset = id % 2 ^ shift in
      let k_below : k < pages = in_pages shift id idt.nr_bit below in
      let whole : id ≡ k * 2 ^ shift + offset = omega (arith, div-add-mod' id (2 ^ shift)) in
      let goes : ℕ → ℕ → Option ℕ × Idt = λ off n.
        alloc_from shift memory pages idt k off n (suc (pages - (if off == 0 then 1 else 0))) in
      let runs : goes (bit_and id (2 ^ shift - 1)) id ≡ goes offset (k * 2 ^ shift + offset) =
        ap₂ goes (bit_and_mask shift id) whole in
      elim (ℕ_discrete offset 0) [
        | yes start ↦
            let turns : suc (pages - 1) ≡ pages = omega (arith, k_below) in
            subst (Allocates idt)
              (sym (
                runs
                ∙ ap (λ off. goes off (k * 2 ^ shift + off)) start
                ∙ ap (alloc_from shift memory pages idt k 0 (k * 2 ^ shift + 0)) turns))
              (whole_search pages idt k v (sym v.maps) k_below)
        | no middle ↦
            let turns : suc (pages - (if offset == 0 then 1 else 0)) ≡ suc pages =
              ground (arith, middle) in
            subst (Allocates idt)
              (sym (
                runs
                ∙ ap (alloc_from shift memory pages idt k offset (k * 2 ^ shift + offset)) turns))
              (from_middle pages idt k offset v (sym v.maps) k_below
                (bit_below shift idt v id below))
      ]

-- In an allocator between calls, `idt_alloc` gives an id in its range that was not in use and is now, with no other
-- one touched and the count of free ids one less; or it returns -ENOSPC and touches none, where no id was free or a
-- page could not be had. The allocator is as it is between calls after both.
pub idt_alloc-Allocates :
    (shift : ℕ) (memory : ℕ → Bool) (idt : Idt)
    → IsValid shift idt
    → Allocates shift memory idt (idt_alloc shift memory idt)
unfolding idt_alloc
idt_alloc-Allocates shift memory idt v =
    let id = if leb idt.nr_bit (add32 idt.last 1) then 0 else add32 idt.last 1 in
    let below : id < idt.nr_bit = ground (arith, v.sized) in
    elim (ℕ_discrete idt.nr_free 0) [
      | yes full ↦ inr (idt, ground (arith, full), Keeps-refl shift idt v, inl full)
      | no some_free ↦
          let found = from_id shift memory idt id v below in
          subst (Allocates shift memory idt) (ground (arith, some_free)) found
    ]
