-- ===== src/Idr.antt =====
-- src/adt/idr.c, the allocator of numbers, and the bit search of src/utils/bitmap.c that it uses. A page of bits is
-- a function of the position. `shift` gives BITS_PER_PAGE as 2 ^ shift, a value of the build.
pub mod Valid
pub mod Place
pub mod Claim
pub mod Turn
pub mod Alloc
pub mod Remove
pub mod Find
pub mod Next
pub mod Init
mod Tests
use Prim.Native.Nat.{bit_and}
use skp.Common.{
  ℕ, zero, suc, ◌+◌, ◌-◌, ◌*◌, ◌/◌, ◌%◌, ◌^◌, Bool, true, false, not, ◌&&◌, ◌||◌, Option, none,
  some, List, [], ◌∷◌, ◌==◌, ltb, leb, if◌then◌else◌, get_or, set,
}
use skp.Common.Int.{ℤ, pos, negsuc}
use skp.Common.Word.{u32_mod, add32, sub32}

-- `struct idmap`
pub record Idmap : Type 0 where
  pub nr_free : ℕ
  pub nr_bit : ℕ
  pub page : Option (ℕ → Bool)

-- `struct idt`
pub record Idt : Type 0 where
  pub nr_free : ℕ
  pub offset : ℕ
  pub nr_bit : ℕ
  pub last : ℕ
  pub idmap : List Idmap

abbrev pub no_map : Idmap
no_map = record { nr_free = 0; nr_bit = 0; page = none }

abbrev pub map_at : Idt → ℕ → Idmap
map_at idt k = get_or idt.idmap k no_map

abbrev pub store_bit : (ℕ → Bool) → ℕ → Bool → ℕ → Bool
store_bit page i b j = if j == i then b else page j

-- The first of the `n` bits from `offset` on that is set, or the place behind them. The code takes them a word at a
-- time.
abbrev pub first_set : (ℕ → Bool) → ℕ → ℕ → ℕ
first_set page offset zero = offset
first_set page offset (suc n) =
    let rest = first_set page (suc offset) n in if page offset then offset else rest

-- `__find_next_bit` without a second map
pub find_next_bit : (ℕ → Bool) → ℕ → ℕ → ℕ
find_next_bit page nbits start =
    if leb nbits start then nbits else first_set page start (nbits - start)

-- the same with `invert`
abbrev pub find_next_zero_bit : (ℕ → Bool) → ℕ → ℕ → ℕ
find_next_zero_bit page = find_next_bit (λ i. not (page i))

-- An id below `offset`, or above the last one, is refused, as is one below 0.
abbrev pub check_idt : Idt → ℤ → Bool
check_idt idt (pos id) = leb idt.offset id && ltb id (idt.offset + idt.nr_bit)
check_idt idt (negsuc n) = false

-- The page of a map, made where it has none if there is memory.
abbrev pub page_for : Option (ℕ → Bool) → Bool → Option (ℕ → Bool)
page_for none false = none
page_for none true = some (λ i. false)
page_for (some page) ok = some page

-- The bit is set, and the counters are one less.
abbrev pub take_id : Idt → ℕ → (ℕ → Bool) → ℕ → ℕ → Idt
take_id idt k page bit id =
    let map = map_at idt k in
    record idt {
      nr_free = idt.nr_free - 1;
      last = id;
      idmap =
          set idt.idmap k
            (record map { nr_free = map.nr_free - 1; page = some (store_bit page bit true) });
    }

abbrev pub with_page : Idt → ℕ → (ℕ → Bool) → Idt
with_page idt k page = record idt {
  idmap = set idt.idmap k (record (map_at idt k) { page = some page });
}

-- The bit of id `offset + n` is cleared, and the counters are one more.
abbrev pub put_id : Idt → ℕ → (ℕ → Bool) → ℕ → ℕ → Bool → Idt
put_id idt k page bit n ring =
    let map = map_at idt k in
    record idt {
      nr_free = idt.nr_free + 1;
      last =
          if ring && leb n idt.last && not (idt.last == u32_mod - 1) then sub32 n 1 else idt.last;
      idmap =
          set idt.idmap k
            (record map { nr_free = map.nr_free + 1; page = some (store_bit page bit false) });
    }

abbrev pub s32_max : ℕ
s32_max = 2 ^ 31 - 1

-- What `idt_init` does: it aborts on a range that it does not take, or returns -ENOMEM, or 0.
pub data InitResult : Type 0 where
  bug : InitResult
  enomem : InitResult
  made : Idt → InitResult

module _ (shift : ℕ) where
  -- `DIV_ROUND_UP` by BITS_PER_PAGE
  abbrev pub nr_pages : ℕ → ℕ
  nr_pages nr_bit = (nr_bit + 2 ^ shift - 1) / 2 ^ shift

  abbrev pub mk_id : ℕ → ℕ → ℕ
  mk_id k offset = (k * 2 ^ shift + offset) % u32_mod

  -- The loop in `idt_alloc` that sets a bit, with how often it may go round: the bit and its id.
  pub claim_bit : ℕ → (ℕ → Bool) → ℕ → ℕ → ℕ → ℕ → Option (ℕ × ℕ)
  claim_bit k page nr_bit offset id zero = none
  claim_bit k page nr_bit offset id (suc n) =
      let next = find_next_zero_bit page nr_bit offset in
      let rest = claim_bit k page nr_bit next (mk_id k next) n in
      if page offset then if ltb next nr_bit then rest else none else some (offset, id)

  -- The loop of `idt_alloc` over the maps from `k` on, round the end, `n` turns at most. `memory n` says whether a
  -- page can be had in the turn before the last `n`.
  pub alloc_from : (ℕ → Bool) → ℕ → Idt → ℕ → ℕ → ℕ → ℕ → Option ℕ × Idt
  alloc_from memory pages idt k offset id zero = (none, idt)
  alloc_from memory pages idt k offset id (suc n) =
      let map = map_at idt k in
      let next = if ltb k (pages - 1) then suc k else 0 in
      elim (page_for map.page (memory n)) [
        | none ↦ (none, idt)
        | some page ↦
            elim (if map.nr_free == 0 then none else claim_bit k page map.nr_bit offset id 2) [
              | some (bit, id') ↦ (some (add32 id' idt.offset), take_id idt k page bit id')
              | none ↦ alloc_from memory pages (with_page idt k page) next 0 (mk_id next 0) n
            ]
      ]

  -- `idt_alloc`: the id, or none for -ENOSPC
  pub idt_alloc : (ℕ → Bool) → Idt → Option ℕ × Idt
  idt_alloc memory idt =
      let pages = nr_pages idt.nr_bit in
      let after = add32 idt.last 1 in
      let id = if leb idt.nr_bit after then 0 else after in
      let offset = bit_and id (2 ^ shift - 1) in
      let max_scan = pages - (if offset == 0 then 1 else 0) in
      if idt.nr_free == 0
      then (none, idt)
      else alloc_from memory pages idt (id / 2 ^ shift) offset id (suc max_scan)

  -- `__idt_remove` of an id in the range, less `offset`
  pub remove_at : Idt → ℕ → Bool → Bool × Idt
  remove_at idt n ring =
      let k = n / 2 ^ shift in
      let bit = bit_and n (2 ^ shift - 1) in
      elim (map_at idt k).page [
        | none ↦ (false, idt)
        | some page ↦ if page bit then (true, put_id idt k page bit n ring) else (false, idt)
      ]

  -- `__idt_remove`: whether the id was in use; `ring` lets the next search begin at it
  pub idt_remove : Idt → ℤ → Bool → Bool × Idt
  idt_remove idt (negsuc n) ring = (false, idt)
  idt_remove idt (pos id) ring =
      if check_idt idt (pos id) then remove_at idt (id - idt.offset) ring else (false, idt)

  -- The loop of `idt_next` over the last `n` maps, from map `k` on: the next id that is in use, less `offset`.
  pub next_from : Idt → ℕ → ℕ → ℕ → Option ℕ
  next_from idt k offset zero = none
  next_from idt k offset (suc n) =
      let rest = next_from idt (suc k) 0 n in
      elim (map_at idt k).page [
        | none ↦ rest
        | some page ↦
            let bit = find_next_bit page (map_at idt k).nr_bit offset in
            if ltb bit (map_at idt k).nr_bit then some (mk_id k bit) else rest
      ]

  -- `idt_next`: an id, or none for -ENOENT
  pub idt_next : Idt → ℤ → Option ℕ
  idt_next idt (negsuc n) = none
  idt_next idt (pos id) =
      let n = id - idt.offset in
      let k = n / 2 ^ shift in
      if check_idt idt (pos id)
      then elim (next_from idt k (bit_and n (2 ^ shift - 1)) (nr_pages idt.nr_bit - k)) [
        | none ↦ none
        | some next ↦ some (add32 next idt.offset)
      ]
      else none

  -- the maps of `idt_init`: `n` full ones, and the last
  pub init_maps : ℕ → ℕ → List Idmap
  init_maps last_bits zero = record { nr_free = last_bits; nr_bit = last_bits; page = none } ∷ []
  init_maps last_bits (suc n) =
      record { nr_free = 2 ^ shift; nr_bit = 2 ^ shift; page = none } ∷ init_maps last_bits n

  -- `idt_init`; `memory` says whether the maps can be had
  pub idt_init : Bool → ℕ → ℕ → InitResult
  idt_init memory start end =
      let nr_bit = add32 (sub32 end start) 1 in
      let rest_bits = bit_and nr_bit (2 ^ shift - 1) in
      let last_bits = if rest_bits == 0 then 2 ^ shift else rest_bits in
      if leb end start || leb s32_max start || leb s32_max end || leb s32_max nr_bit
      then bug
      else if memory
      then made (record {
        nr_free = nr_bit;
        offset = start;
        nr_bit = nr_bit;
        last = u32_mod - 1;
        idmap = init_maps last_bits (nr_pages nr_bit - 1);
      })
      else enomem
