-- ===== src/Idr/Turn.antt =====
-- The loop of `idt_alloc` in src/adt/idr.c, one turn.
use mathlib.Core.Path.{subst}
use native.Mathlib.Nat.{mod-eq_of_lt}
use skp.Common.{
  ℕ, suc, ◌+◌, ◌-◌, ◌*◌, ◌^◌, ◌<◌, ◌≡◌, ◌⊎◌, inl, inr, sym, ap, ◌∙◌, Bool, false, Option,
  Option-cases, none, some, ◌==◌, ltb, if◌then◌else◌, length, arith, ℕ_discrete,
}
use skp.Common.Word.{u32_mod, add32}
use skp.Idr.{Idt, map_at, mk_id, claim_bit, page_for, take_id, with_page, alloc_from}
use skp.Idr.Place.{start_below, bits_below}
use skp.Idr.Valid.{zeros-none, page_bits, IsValid}
use skp.Idr.Claim.{
  Keeps, Found, claim_bit-Claims, page_for-bits, page_for_fails, with_page-Keeps, take_id-Allocated,
}

-- the map that the loop comes to after map `k`
abbrev pub next_map : ℕ → ℕ → ℕ
next_map pages k = if ltb k (pages - 1) then suc k else 0

module _ (shift : ℕ) (memory : ℕ → Bool) where
  -- What a turn does: it finds an id, stops for want of memory, or goes on with the next map.
  abbrev pub Turned : ℕ → Idt → ℕ → ℕ → ℕ → Option ℕ × Idt → Type 0
  Turned pages idt k offset n result =
      Found shift idt result
      ⊎ (((result ≡ (none, idt)) × (memory n ≡ false))
          ⊎ ((z : Idt) × Keeps shift idt z
              × (result
                  ≡ alloc_from shift memory pages z (next_map pages k) 0
                      (next_map pages k * 2 ^ shift + 0) n)
              × (offset ≡ 0 → (map_at idt k).nr_free ≡ 0)))

  module _ (pages : ℕ) (idt : Idt) (k offset n : ℕ) (v : IsValid shift idt)
      (lt : k < length idt.idmap) (below : offset < (map_at idt k).nr_bit)
      (all : pages ≡ length idt.idmap) where
    abbrev with_claim : (ℕ → Bool) → Option (ℕ × ℕ) → Option ℕ × Idt
    with_claim page none =
        alloc_from shift memory pages (with_page idt k page) (next_map pages k) 0
          (mk_id shift (next_map pages k) 0) n
    with_claim page (some (bit, id')) = (some (add32 id' idt.offset), take_id idt k page bit id')

    abbrev claim : (ℕ → Bool) → Option (ℕ × ℕ)
    claim page =
        if (map_at idt k).nr_free == 0
        then none
        else claim_bit shift k page (map_at idt k).nr_bit offset (k * 2 ^ shift + offset) 2

    abbrev with_memory : Option (ℕ → Bool) → Option ℕ × Idt
    with_memory none = (none, idt)
    with_memory (some page) = with_claim page (claim page)

    goes_on : mk_id shift (next_map pages k) 0 ≡ next_map pages k * 2 ^ shift + 0
    goes_on =
        let there : next_map pages k < length idt.idmap = ground (arith, all, lt) in
        mod-eq_of_lt (omega (arith, start_below shift idt v (next_map pages k) there, v.small))

    claimed :
        (page : ℕ → Bool)
        → page_for (map_at idt k).page (memory n) ≡ some page
        → Turned pages idt k offset n (with_claim page (claim page))
    claimed page e =
        let same : (i : ℕ) → page i ≡ page_bits (map_at idt k).page i = λ i.
          ap (λ (o : Option (ℕ → Bool)). page_bits o i) (sym e)
          ∙ page_for-bits shift (map_at idt k).page (memory n) i in
        let passed : claim page ≡ none
            → (offset ≡ 0 → (map_at idt k).nr_free ≡ 0)
            → Turned pages idt k offset n (with_claim page (claim page)) =
          λ nothing full. inr (
            inr (
              with_page idt k page,
              with_page-Keeps shift memory idt k offset n page v lt below same,
              ap (with_claim page) nothing
                  ∙ ap
                      (λ id.
                        alloc_from shift memory pages (with_page idt k page) (next_map pages k) 0 id
                          n)
                      goes_on,
              full,
            )) in
        elim (ℕ_discrete (map_at idt k).nr_free 0) [
          | yes empty ↦
              let nothing : claim page ≡ none = ground (arith, empty) in passed nothing (λ z. empty)
          | no some_free ↦
              let small : k * 2 ^ shift + (map_at idt k).nr_bit < u32_mod =
                omega (arith, bits_below shift idt v k lt, v.small) in
              let tries : claim page
                  ≡ claim_bit shift k page (map_at idt k).nr_bit offset (k * 2 ^ shift + offset) 2 =
                ground (arith, some_free) in
              elim (claim_bit-Claims shift k page (map_at idt k).nr_bit offset below small) [
                | inl (bit, found, in_map, clear) ↦
                    let whole : add32 (k * 2 ^ shift + bit) idt.offset
                        ≡ k * 2 ^ shift + bit + idt.offset =
                      mod-eq_of_lt (omega (arith, in_map, bits_below shift idt v k lt, v.small)) in
                    let set_id = take_id idt k page bit (k * 2 ^ shift + bit) in
                    inl (
                      k * 2 ^ shift + bit,
                      set_id,
                      ap (with_claim page) (tries ∙ found) ∙ ap (λ id. (some id, set_id)) whole,
                      take_id-Allocated shift memory idt k offset n page v lt below same bit in_map
                          clear some_free,
                    )
                | inr (nothing, busy) ↦ passed (tries ∙ nothing) (λ z.
                    v.counts k
                    ∙ zeros-none (page_bits (map_at idt k).page) (map_at idt k).nr_bit
                        (λ i below_bits. sym (same i) ∙ busy i (omega (arith, z)) below_bits))
              ]
        ]

    pub turn :
        Turned pages idt k offset n
          (alloc_from shift memory pages idt k offset (k * 2 ^ shift + offset) (suc n))
    unfolding alloc_from
    turn = elim (Option-cases (page_for (map_at idt k).page (memory n))) [
      | inl e ↦ inr (inl (ap with_memory e, page_for_fails shift (map_at idt k).page (memory n) e))
      | inr (page, e) ↦
          subst (Turned pages idt k offset n) (sym (ap with_memory e)) (claimed page e)
    ]
