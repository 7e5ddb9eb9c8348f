-- ===== src/Idr/Remove.antt =====
-- `__idt_remove` of src/adt/idr.c.
use mathlib.Core.Path.{subst, ap₂}
use Prim.Native.Nat.{bit_and}
use native.Mathlib.Nat.{mod-lt}
use skp.Common.{
  ℕ, ◌+◌, ◌-◌, ◌/◌, ◌%◌, ◌^◌, ◌<◌, ◌≡◌, ◌⊎◌, inl, inr, refl, sym, ap, ◌∙◌, Bool, true, false, not,
  ◌&&◌, Bool-cases, Option, Option-cases, none, some, ◌==◌, leb, if◌then◌else◌, arith, ℕ_discrete,
}
use skp.Common.Bits.{pow_pos, bit_and_mask}
use skp.Common.Word.{u32_mod}
use skp.Common.Int.{pos}
use skp.Idr.{Idt, map_at, store_bit, check_idt, put_id, remove_at, idt_remove}
use skp.Idr.Place.{store_bit-used, id_of, map_below, bit_below}
use skp.Idr.Valid.{zeros, zeros-clear, page_bits, is_used, IsValid, is_used-stored, stored-IsValid}

module _ (shift : ℕ) where
  -- whether an id of the range is in use
  abbrev pub in_use : Idt → ℕ → Bool
  in_use idt id = check_idt idt (pos id) && is_used shift idt (id - idt.offset)

  -- What removing an id leaves: no other id is touched.
  pub record Removed (idt : Idt) (id : ℕ) (result : Bool × Idt) : Type 0 where
    pub was_used : result.0 ≡ in_use idt id
    pub valid : IsValid shift result.1
    pub used : (j : ℕ) → in_use result.1 j ≡ (if j == id then false else in_use idt j)
    pub counted : result.1.nr_free ≡ idt.nr_free + (if in_use idt id then 1 else 0)
    pub same_range : (result.1.offset ≡ idt.offset) × (result.1.nr_bit ≡ idt.nr_bit)

  -- an id that was not in use
  refused :
      (idt : Idt) (id : ℕ) → IsValid shift idt → in_use idt id ≡ false → Removed idt id (false, idt)
  refused idt id v unused = record {
    was_used = sym unused;
    valid = v;
    used = λ j. elim (ℕ_discrete j id) [
      | yes e ↦ ap (in_use idt) e ∙ unused ∙ ground (arith, e)
      | no ne ↦ ground (arith, ne)
    ];
    counted = ground (arith, unused);
    same_range = (refl, refl);
  }

  module _ (idt : Idt) (n : ℕ) (ring : Bool) (v : IsValid shift idt) (below : n < idt.nr_bit)
      (page : ℕ → Bool) (there : (map_at idt (n / 2 ^ shift)).page ≡ some page)
      (is_set : page (n % 2 ^ shift) ≡ true) where
    abbrev k : ℕ
    k = n / 2 ^ shift

    abbrev bit : ℕ
    bit = n % 2 ^ shift

    abbrev left : Idt
    left = put_id idt k page bit n ring

    same : (i : ℕ) → page i ≡ page_bits (map_at idt k).page i
    same i = ap (λ (o : Option (ℕ → Bool)). page_bits o i) (sym there)

    same_zeros :
        zeros page (map_at idt k).nr_bit
        ≡ zeros (page_bits (map_at idt k).page) (map_at idt k).nr_bit
    same_zeros =
        ap (λ (o : Option (ℕ → Bool)). zeros (page_bits o) (map_at idt k).nr_bit) (sym there)

    late : (left.last ≡ u32_mod - 1) ⊎ (left.last < idt.nr_bit)
    late = elim (Bool-cases (ring && leb n idt.last && not (idt.last == u32_mod - 1))) [
      | inr kept ↦ subst (λ t. (t ≡ u32_mod - 1) ⊎ (t < idt.nr_bit)) (ground (arith, kept)) v.recent
      | inl moved ↦ elim (ℕ_discrete n 0) [
        | yes zero_id ↦ inl (ground (arith, moved, zero_id))
        | no later ↦ inr (ground (arith, moved, later, below, v.small))
      ]
    ]

    left-IsValid : IsValid shift left
    left-IsValid =
        stored-IsValid shift idt k (store_bit page bit false) ((map_at idt k).nr_free + 1)
          (idt.nr_free + 1) left.last (map_below shift idt v n below) v
          (omega (
            arith,
            zeros-clear page bit (map_at idt k).nr_bit (bit_below shift idt v n below) is_set,
            v.counts k,
            same_zeros,
          ))
          (omega arith) late

    left-used : (m : ℕ) → is_used shift left m ≡ (if m == n then false else is_used shift idt m)
    left-used m =
        is_used-stored shift idt k (store_bit page bit false) ((map_at idt k).nr_free + 1)
          (idt.nr_free + 1) left.last (map_below shift idt v n below) m
        ∙ store_bit-used shift idt k bit page false m (mod-lt n (pow_pos shift)) same
        ∙ ap (λ i. if m == i then false else is_used shift idt m)
            (sym (id_of shift n k bit refl refl))

    was_set : is_used shift idt n ≡ true
    was_set = sym (same bit) ∙ is_set

    here : (id : ℕ) → id ≡ idt.offset + n → in_use idt id ≡ is_used shift idt n
    here id e =
        let at : id - idt.offset ≡ n = omega (arith, e) in
        ground (arith, e, below, ap (is_used shift idt) at)

    left-Removed : (id : ℕ) → id ≡ idt.offset + n → Removed idt id (true, left)
    left-Removed id e = record {
      was_used = sym (here id e ∙ was_set);
      valid = left-IsValid;
      used = λ j. ground (arith, left-used (j - idt.offset), e, below, here id e);
      counted = ground (arith, here id e, was_set);
      same_range = (refl, refl);
    }

  remove_at-Removed :
      (idt : Idt) (n id : ℕ) (ring : Bool)
      → IsValid shift idt
      → n < idt.nr_bit
      → id ≡ idt.offset + n
      → Removed idt id (remove_at shift idt n ring)
  unfolding remove_at
  remove_at-Removed idt n id ring v below e =
      elim (Option-cases (map_at idt (n / 2 ^ shift)).page) [
        | inl missing ↦
            subst (Removed idt id) (sym (ap (with_page (bit_and n (2 ^ shift - 1))) missing))
              (refused idt id v (unused none missing refl))
        | inr (page, there) ↦
            let runs : remove_at shift idt n ring ≡ with_page (n % 2 ^ shift) (some page) =
              ap₂ with_page (bit_and_mask shift n) there in
            elim (Bool-cases (page (n % 2 ^ shift))) [
              | inl is_set ↦
                  subst (Removed idt id) (sym (runs ∙ ap (with_bit page (n % 2 ^ shift)) is_set))
                    (left-Removed idt n ring v below page there is_set id e)
              | inr clear ↦
                  subst (Removed idt id) (sym (runs ∙ ap (with_bit page (n % 2 ^ shift)) clear))
                    (refused idt id v (unused (some page) there clear))
            ]
      ]
    where
      with_bit : (ℕ → Bool) → ℕ → Bool → Bool × Idt
      with_bit page bit b =
          if b then (true, put_id idt (n / 2 ^ shift) page bit n ring) else (false, idt)

      with_page : ℕ → Option (ℕ → Bool) → Bool × Idt
      with_page bit none = (false, idt)
      with_page bit (some page) = with_bit page bit (page bit)

      unused :
          (o : Option (ℕ → Bool))
          → (map_at idt (n / 2 ^ shift)).page ≡ o
          → page_bits o (n % 2 ^ shift) ≡ false
          → in_use idt id ≡ false
      unused o is clear =
          let at : id - idt.offset ≡ n = omega (arith, e) in
          ground (
            arith,
            ap (is_used shift idt) at,
            ap (λ (t : Option (ℕ → Bool)). page_bits t (n % 2 ^ shift)) is,
            clear,
          )

-- In an allocator between calls, `__idt_remove` of a number from 0 on returns whether the number is an id in use. No
-- id but that one is touched, that one is free after it, the count of free ids is one more where the id was in use,
-- and the allocator is as it is between calls.
pub idt_remove-Removed :
    (shift : ℕ) (idt : Idt) (id : ℕ) (ring : Bool)
    → IsValid shift idt
    → Removed shift idt id (idt_remove shift idt (pos id) ring)
unfolding idt_remove
idt_remove-Removed shift idt id ring v = elim (Bool-cases (check_idt idt (pos id))) [
  | inl inside ↦
      let below : id - idt.offset < idt.nr_bit = ground (arith, inside) in
      let whole : id ≡ idt.offset + (id - idt.offset) = ground (arith, inside) in
      subst (Removed shift idt id)
        (sym
          (ap (λ b. if b then remove_at shift idt (id - idt.offset) ring else (false, idt)) inside))
        (remove_at-Removed shift idt (id - idt.offset) id ring v below whole)
  | inr outside ↦
      let not_in : in_use shift idt id ≡ false = ground (arith, outside) in
      subst (Removed shift idt id)
        (sym (
          ap (λ b. if b then remove_at shift idt (id - idt.offset) ring else (false, idt)) outside))
        (refused shift idt id v not_in)
]
