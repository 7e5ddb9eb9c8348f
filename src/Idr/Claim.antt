-- ===== src/Idr/Claim.antt =====
-- One turn of the loop of `idt_alloc` in src/adt/idr.c: a bit is set, or the page has none that is clear.
use native.Mathlib.Nat.{mod-eq_of_lt}
use skp.Common.{
  ℕ, zero, suc, ◌+◌, ◌-◌, ◌*◌, ◌/◌, ◌%◌, ◌^◌, ◌≤◌, ◌<◌, ◌≡◌, ◌≢◌, ◌⊎◌, inl, inr, refl, sym, ap, ◌∙◌,
  Bool, true, false, not, Bool-cases, Option, none, some, ◌==◌, if◌then◌else◌, length, arith,
  ℕ_discrete,
}
use skp.Common.Word.{u32_mod}
use skp.Idr.{
  Idmap, Idt, map_at, store_bit, find_next_zero_bit, mk_id, claim_bit, page_for, take_id, with_page,
}
use skp.Idr.Place.{store_bit-used, map_of, bit_of, bits_below, bits_in_page}
use skp.Idr.Valid.{
  zeros, zeros-set, page_bits, sum_free-each, find_next_bit_lem, is_used, IsValid, map_at-stored,
  is_used-stored, stored-IsValid,
}

not-false : (b : Bool) → not b ≡ true → b ≡ false
not-false true h = cc
not-false false h = refl

not-true : (b : Bool) → not b ≡ false → b ≡ true
not-true true h = refl
not-true false h = cc

module _ (shift : ℕ) where
  -- The loop on one page finds a clear bit from `offset` on, with its id, or there is none.
  abbrev pub Claims : ℕ → (ℕ → Bool) → ℕ → ℕ → Option (ℕ × ℕ) → Type 0
  Claims k page nr_bit offset result =
      ((bit : ℕ) × (result ≡ some (bit, k * 2 ^ shift + bit)) × (bit < nr_bit) × (page bit ≡ false))
      ⊎ ((result ≡ none) × ((i : ℕ) → offset ≤ i → i < nr_bit → page i ≡ true))

  pub claim_bit-Claims :
      (k : ℕ) (page : ℕ → Bool) (nr_bit offset : ℕ)
      → offset < nr_bit
      → k * 2 ^ shift + nr_bit < u32_mod
      → Claims k page nr_bit offset
          (claim_bit shift k page nr_bit offset (k * 2 ^ shift + offset) 2)
  unfolding claim_bit
  claim_bit-Claims k page nr_bit offset lt small = elim (Bool-cases (page offset)) [
    | inr clear ↦ inl (offset, ground (arith, clear), lt, clear)
    | inl busy ↦ elim (find_next_bit_lem (λ i. not (page i)) nr_bit offset) [
      | inl (lo, below, found, before) ↦
          let bit = find_next_zero_bit page nr_bit offset in
          let clear : page bit ≡ false = not-false (page bit) found in
          let whole : mk_id shift k bit ≡ k * 2 ^ shift + bit =
            mod-eq_of_lt (omega (arith, below, small)) in
          inl (bit, ground (arith, busy, below, clear, whole), below, clear)
      | inr (nothing, before) ↦
          inr (ground (arith, busy, nothing), λ i p q. not-true (page i) (before i p q))
    ]
  ]

  -- A page that was cleared in the place of one that was missing changes nothing.
  pub record Keeps (idt idt' : Idt) : Type 0 where
    pub valid : IsValid shift idt'
    pub used : (n : ℕ) → is_used shift idt' n ≡ is_used shift idt n
    pub same_free : idt'.nr_free ≡ idt.nr_free
    pub same_offset : idt'.offset ≡ idt.offset
    pub same_bits : idt'.nr_bit ≡ idt.nr_bit
    pub each_free : (k : ℕ) → (map_at idt' k).nr_free ≡ (map_at idt k).nr_free

  -- An id that was not in use is, and no other one is touched.
  pub record Allocated (idt idt' : Idt) (n : ℕ) : Type 0 where
    pub valid : IsValid shift idt'
    pub below : n < idt.nr_bit
    pub fresh : is_used shift idt n ≡ false
    pub used : (m : ℕ) → is_used shift idt' m ≡ (if m == n then true else is_used shift idt m)
    pub fewer : idt'.nr_free + 1 ≡ idt.nr_free
    pub same_offset : idt'.offset ≡ idt.offset
    pub same_bits : idt'.nr_bit ≡ idt.nr_bit

  pub page_for-bits :
      (o : Option (ℕ → Bool)) (ok : Bool) (i : ℕ) → page_bits (page_for o ok) i ≡ page_bits o i
  page_for-bits none true i = refl
  page_for-bits none false i = refl
  page_for-bits (some p) ok i = refl

  pub page_for_fails : (o : Option (ℕ → Bool)) (ok : Bool) → page_for o ok ≡ none → ok ≡ false
  page_for_fails none true e = cc
  page_for_fails none false e = refl
  page_for_fails (some p) ok e = cc

  zeros_same : (p q : ℕ → Bool) (n : ℕ) → ((i : ℕ) → p i ≡ q i) → zeros p n ≡ zeros q n
  zeros_same p q zero h = refl
  zeros_same p q (suc n) h = ground (arith, h n, zeros_same p q n h)

  -- the loop found an id
  abbrev pub Found : Idt → Option ℕ × Idt → Type 0
  Found idt result =
      (n : ℕ) × (idt' : Idt) × (result ≡ (some (n + idt.offset), idt')) × Allocated idt idt' n

  module _ (memory : ℕ → Bool) (idt : Idt) (k offset n : ℕ) (page : ℕ → Bool)
      (v : IsValid shift idt) (lt : k < length idt.idmap) (below : offset < (map_at idt k).nr_bit)
      (same : (i : ℕ) → page i ≡ page_bits (map_at idt k).page i) where
    counted : (map_at idt k).nr_free ≡ zeros page (map_at idt k).nr_bit
    counted =
        v.counts k
        ∙ sym (zeros_same page (page_bits (map_at idt k).page) (map_at idt k).nr_bit same)

    pub with_page-Keeps : Keeps idt (with_page idt k page)
    with_page-Keeps = record {
      valid =
          stored-IsValid shift idt k page (map_at idt k).nr_free idt.nr_free idt.last lt v counted
            refl v.recent;
      used = λ m.
          is_used-stored shift idt k page (map_at idt k).nr_free idt.nr_free idt.last lt m
          ∙ elim (ℕ_discrete k (m / 2 ^ shift)) [
            | yes e ↦ ground (
              arith,
              e,
              same (m % 2 ^ shift),
              ap (λ j. page_bits (map_at idt j).page (m % 2 ^ shift)) e,
            )
            | no ne ↦ ground (arith, ne)
          ];
      same_free = refl;
      same_offset = refl;
      same_bits = refl;
      each_free = λ j.
          ap (λ (m : Idmap). m.nr_free)
            (map_at-stored shift idt k page (map_at idt k).nr_free idt.nr_free idt.last lt j)
          ∙ elim (ℕ_discrete k j) [
            | yes e ↦ ground (arith, e, ap (λ i. (map_at idt i).nr_free) e)
            | no ne ↦ ground (arith, ne)
          ];
    }

    module _ (bit : ℕ) (in_map : bit < (map_at idt k).nr_bit) (clear : page bit ≡ false)
        (some_free : (map_at idt k).nr_free ≢ 0) where
      abbrev id : ℕ
      id = k * 2 ^ shift + bit

      in_page : bit < 2 ^ shift
      in_page = omega (arith, in_map, bits_in_page shift idt v k lt)

      all_free : (map_at idt k).nr_free ≤ idt.nr_free
      all_free = omega (arith, sum_free-each idt.idmap k, v.total)

      not_used : is_used shift idt id ≡ false
      not_used =
          ap (λ j. page_bits (map_at idt j).page (id % 2 ^ shift)) (map_of shift k bit in_page)
          ∙ ap (page_bits (map_at idt k).page) (bit_of shift k bit in_page)
          ∙ sym (same bit)
          ∙ clear

      pub take_id-Allocated : Allocated idt (take_id idt k page bit id) id
      take_id-Allocated = record {
        valid =
            stored-IsValid shift idt k (store_bit page bit true) ((map_at idt k).nr_free - 1)
              (idt.nr_free - 1) id lt v
              (omega
                (arith, zeros-set page bit (map_at idt k).nr_bit in_map clear, counted, some_free))
              (omega (arith, all_free, some_free))
              (inr (omega (arith, in_map, bits_below shift idt v k lt)));
        below = omega (arith, in_map, bits_below shift idt v k lt);
        fresh = not_used;
        used = λ m.
            is_used-stored shift idt k (store_bit page bit true) ((map_at idt k).nr_free - 1)
              (idt.nr_free - 1) id lt m
            ∙ store_bit-used shift idt k bit page true m in_page same;
        fewer = omega (arith, all_free, some_free);
        same_offset = refl;
        same_bits = refl;
      }

  pub Keeps-refl : (idt : Idt) → IsValid shift idt → Keeps idt idt
  Keeps-refl idt v = record {
    valid = v;
    used = λ n. refl;
    same_free = refl;
    same_offset = refl;
    same_bits = refl;
    each_free = λ k. refl;
  }

  pub Keeps-trans : (a b c : Idt) → Keeps a b → Keeps b c → Keeps a c
  Keeps-trans a b c f g = record {
    valid = g.valid;
    used = λ n. g.used n ∙ f.used n;
    same_free = g.same_free ∙ f.same_free;
    same_offset = g.same_offset ∙ f.same_offset;
    same_bits = g.same_bits ∙ f.same_bits;
    each_free = λ k. g.each_free k ∙ f.each_free k;
  }

  pub Found-after :
      (a b : Idt) (result : Option ℕ × Idt) → Keeps a b → Found b result → Found a result
  Found-after a b result f (n, c, runs, g) = (
    n,
    c,
    runs ∙ ap (λ t. (some (n + t), c)) f.same_offset,
    record {
      valid = g.valid;
      below = omega (arith, g.below, f.same_bits);
      fresh = sym (f.used n) ∙ g.fresh;
      used = λ m. g.used m ∙ ap (λ b. if m == n then true else b) (f.used m);
      fewer = g.fewer ∙ f.same_free;
      same_offset = g.same_offset ∙ f.same_offset;
      same_bits = g.same_bits ∙ f.same_bits;
    },
  )
