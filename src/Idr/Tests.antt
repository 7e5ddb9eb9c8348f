-- ===== src/Idr/Tests.antt =====
-- Runs of the allocator of src/adt/idr.c with two ids on a page, and its theorems at them.
use skp.Common.{
  ℕ, zero, suc, ◌-◌, ◌*◌, ◌^◌, ◌≡◌, refl, inr, min, Bool, true, false, Option, none, some, [], ◌∷◌,
  ◌==◌, arith,
}
use skp.Common.Int.{pos}
use skp.Idr.{Idt, map_at, claim_bit, alloc_from, idt_alloc, idt_remove, idt_next, idt_init, bug}
use skp.Idr.Valid.{zeros, page_bits, IsValid}
use skp.Idr.Alloc.{Allocates, idt_alloc-Allocates}
use skp.Idr.Remove.{Removed, idt_remove-Removed}
use skp.Idr.Next.{idt_next-search_ids}
use skp.Idr.Init.{Starts, idt_init-Starts}

-- ids 5 to 7; 5 is in use, and the second page was never needed
abbrev one_used : Idt
one_used = record {
  nr_free = 2;
  offset = 5;
  nr_bit = 3;
  last = 0;
  idmap =
      record { nr_free = 1; nr_bit = 2; page = some (λ i. i == 0) }
      ∷ record { nr_free = 1; nr_bit = 1; page = none }
      ∷ [];
}

one_used_bits : (k : ℕ) → (map_at one_used k).nr_bit ≡ min 2 (3 - k * 2)
one_used_bits zero = refl
one_used_bits (suc zero) = refl
one_used_bits (suc (suc k)) = omega arith

one_used_counts :
    (k : ℕ)
    → (map_at one_used k).nr_free
      ≡ zeros (page_bits (map_at one_used k).page) (map_at one_used k).nr_bit
one_used_counts zero = refl
one_used_counts (suc zero) = refl
one_used_counts (suc (suc k)) = refl

one_used-IsValid : IsValid 1 one_used
one_used-IsValid = record {
  sized = omega arith;
  small = omega arith;
  maps = refl;
  nr_bits = one_used_bits;
  counts = one_used_counts;
  total = refl;
  recent = inr (omega arith);
}

idt_alloc-Allocates_example : Allocates 1 (λ m. true) one_used (idt_alloc 1 (λ m. true) one_used)
idt_alloc-Allocates_example = idt_alloc-Allocates 1 (λ m. true) one_used one_used-IsValid

idt_remove-Removed_example : Removed 1 one_used 5 (idt_remove 1 one_used (pos 5) false)
idt_remove-Removed_example = idt_remove-Removed 1 one_used 5 false one_used-IsValid

idt_next-search_ids_example : idt_next 1 one_used (pos 5) ≡ some 5
idt_next-search_ids_example =
    idt_next-search_ids 1 one_used 5 one_used-IsValid (omega arith) (omega arith)

idt_init-Starts_example : Starts 15 true 1 100000 (idt_init 15 true 1 100000)
idt_init-Starts_example = idt_init-Starts 15 true 1 100000 (omega arith) (omega arith)

-- The range that `idr32_init` asks for makes `idt_init` abort.
idr32_init_aborts : (memory : Bool) → idt_init 15 memory 0 (2 ^ 31 - 2) ≡ bug
unfolding idt_init
idr32_init_aborts memory = refl

abbrev id_of : Option ℕ × Idt → Option ℕ
id_of (id, idt) = id

-- The search goes on to the page that was missing, and fails where it cannot be had.
allocs : id_of (idt_alloc 1 (λ m. true) (record one_used { last = 1 })) ≡ some 7
unfolding idt_alloc alloc_from claim_bit
allocs = refl

alloc_fails : id_of (idt_alloc 1 (λ m. false) (record one_used { last = 1 })) ≡ none
unfolding idt_alloc alloc_from claim_bit
alloc_fails = refl
