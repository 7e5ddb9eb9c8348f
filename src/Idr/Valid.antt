-- ===== src/Idr/Valid.antt =====
-- What holds of the allocator of src/adt/idr.c between calls, and the ids that are in use.
use skp.Common.{
  ℕ, zero, suc, ◌+◌, ◌-◌, ◌*◌, ◌/◌, ◌%◌, ◌^◌, ◌≤◌, ◌<◌, ◌≡◌, ◌⊎◌, inl, inr, refl, ap, ◌∙◌, min,
  Bool, true, false, Bool-cases, Option, none, some, List, [], ◌∷◌, ◌==◌, leb, if◌then◌else◌,
  get_or, set, get_or-set, length, length-set, arith, ℕ_discrete,
}
use skp.Common.Word.{u32_mod}
use skp.Idr.{Idmap, Idt, no_map, map_at, store_bit, first_set, find_next_bit, nr_pages}

-- how many of the first `n` bits are clear
abbrev pub zeros : (ℕ → Bool) → ℕ → ℕ
zeros page zero = 0
zeros page (suc n) = zeros page n + (if page n then 0 else 1)

abbrev pub page_bits : Option (ℕ → Bool) → ℕ → Bool
page_bits none i = false
page_bits (some page) i = page i

abbrev pub sum_free : List Idmap → ℕ
sum_free [] = 0
sum_free (m ∷ ms) = m.nr_free + sum_free ms

pub zeros-store_above :
    (page : ℕ → Bool) (i : ℕ) (b : Bool) (n : ℕ)
    → n ≤ i
    → zeros (store_bit page i b) n ≡ zeros page n
zeros-store_above page i b zero h = refl
zeros-store_above page i b (suc n) h =
    ground (arith, h, zeros-store_above page i b n (omega (arith, h)))

pub zeros-set :
    (page : ℕ → Bool) (i n : ℕ)
    → i < n
    → page i ≡ false
    → zeros (store_bit page i true) n + 1 ≡ zeros page n
zeros-set page i zero h e = absurd (omega arith)
zeros-set page i (suc n) h e = elim (ℕ_discrete n i) [
  | yes same ↦
      ground (arith, same, e, ap page same, zeros-store_above page i true n (omega (arith, same)))
  | no ne ↦ ground (arith, ne, zeros-set page i n (omega (arith, h, ne)) e)
]

pub zeros-clear :
    (page : ℕ → Bool) (i n : ℕ)
    → i < n
    → page i ≡ true
    → zeros (store_bit page i false) n ≡ zeros page n + 1
zeros-clear page i zero h e = absurd (omega arith)
zeros-clear page i (suc n) h e = elim (ℕ_discrete n i) [
  | yes same ↦
      ground (arith, same, e, ap page same, zeros-store_above page i false n (omega (arith, same)))
  | no ne ↦ ground (arith, ne, zeros-clear page i n (omega (arith, h, ne)) e)
]

pub zeros-none : (page : ℕ → Bool) (n : ℕ) → ((i : ℕ) → i < n → page i ≡ true) → zeros page n ≡ 0
zeros-none page zero h = refl
zeros-none page (suc n) h =
    ground (arith, h n (omega arith), zeros-none page n (λ i lt. h i (omega (arith, lt))))

pub zeros-all : (n : ℕ) → zeros (λ i. false) n ≡ n
zeros-all zero = refl
zeros-all (suc n) = omega (arith, zeros-all n)

pub sum_free-set :
    (maps : List Idmap) (k : ℕ) (m : Idmap)
    → k < length maps
    → sum_free (set maps k m) + (get_or maps k no_map).nr_free ≡ sum_free maps + m.nr_free
sum_free-set [] k m h = absurd (omega arith)
sum_free-set (a ∷ maps) zero m h = omega arith
sum_free-set (a ∷ maps) (suc k) m h = omega (arith, sum_free-set maps k m (omega (arith, h)))

pub sum_free-none :
    (maps : List Idmap)
    → ((k : ℕ) → k < length maps → (get_or maps k no_map).nr_free ≡ 0)
    → sum_free maps ≡ 0
sum_free-none [] h = refl
sum_free-none (a ∷ maps) h =
    omega (arith, h 0 (omega arith), sum_free-none maps (λ k lt. h (suc k) (omega (arith, lt))))

pub sum_free-each : (maps : List Idmap) (k : ℕ) → (get_or maps k no_map).nr_free ≤ sum_free maps
sum_free-each [] k = omega arith
sum_free-each (a ∷ maps) zero = omega arith
sum_free-each (a ∷ maps) (suc k) = omega (arith, sum_free-each maps k)

-- The first bit that is set, from a place on.
pub first_set_lem :
    (page : ℕ → Bool) (start n : ℕ)
    → (start ≤ first_set page start n)
      × (first_set page start n ≤ start + n)
      × ((first_set page start n < start + n) → page (first_set page start n) ≡ true)
      × ((i : ℕ) → start ≤ i → i < first_set page start n → page i ≡ false)
first_set_lem page start zero = (
  omega arith,
  omega arith,
  λ h. absurd (omega (arith, h)),
  λ i p q. absurd (omega (arith, p, q)),
)
first_set_lem page start (suc n) =
    let (lo, hi, found, before) = first_set_lem page (suc start) n in
    elim (Bool-cases (page start)) [
      | inl e ↦ (
        ground (arith, e),
        ground (arith, e),
        λ h. ground (arith, e),
        λ i p q. absurd (ground (arith, e, p, q)),
      )
      | inr e ↦
          let same : first_set page start (suc n) ≡ first_set page (suc start) n =
            ground (arith, e) in
          (
            omega (arith, same, lo),
            omega (arith, same, hi),
            λ h. ap page same ∙ found (omega (arith, same, h)),
            λ i p q. elim (ℕ_discrete i start) [
              | yes here ↦ ap page here ∙ e
              | no ne ↦ before i (omega (arith, p, ne)) (omega (arith, q, same))
            ],
          )
    ]

-- `find_next_bit` gives the first bit that is set, from `start` on, where one below `nbits` is, and `nbits` else.
pub find_next_bit_lem :
    (page : ℕ → Bool) (nbits start : ℕ)
    → ((start ≤ find_next_bit page nbits start)
        × (find_next_bit page nbits start < nbits)
        × (page (find_next_bit page nbits start) ≡ true)
        × ((i : ℕ) → start ≤ i → i < find_next_bit page nbits start → page i ≡ false))
      ⊎ ((find_next_bit page nbits start ≡ nbits)
          × ((i : ℕ) → start ≤ i → i < nbits → page i ≡ false))
unfolding find_next_bit
find_next_bit_lem page nbits start = elim (Bool-cases (leb nbits start)) [
  | inl e ↦ inr (ground (arith, e), λ i p q. absurd (ground (arith, e, p, q)))
  | inr e ↦
      let (lo, hi, found, before) = first_set_lem page start (nbits - start) in
      let below : start < nbits = ground (arith, e) in
      let same : (if leb nbits start then nbits else first_set page start (nbits - start))
          ≡ first_set page start (nbits - start) =
        ground (arith, e) in
      elim (ℕ_discrete (first_set page start (nbits - start)) nbits) [
        | yes none_set ↦ inr (same ∙ none_set, λ i p q. before i p (omega (arith, q, none_set)))
        | no ne ↦ inl (
          omega (arith, same, lo),
          omega (arith, same, hi, ne, below),
          ap page same ∙ found (omega (arith, hi, ne, below)),
          λ i p q. before i p (omega (arith, q, same)),
        )
      ]
]

-- A map with another page, and counters that agree.
abbrev pub stored : Idt → ℕ → (ℕ → Bool) → ℕ → ℕ → ℕ → Idt
stored idt k page free all recent = record idt {
  nr_free = all;
  last = recent;
  idmap = set idt.idmap k (record (map_at idt k) { nr_free = free; page = some page });
}

module _ (shift : ℕ) where
  -- whether the id `offset + n` is in use
  abbrev pub is_used : Idt → ℕ → Bool
  is_used idt n = page_bits (map_at idt (n / 2 ^ shift)).page (n % 2 ^ shift)

  -- What holds between calls. A position behind the last map reads as a map without bits.
  pub record IsValid (idt : Idt) : Type 0 where
    pub sized : 0 < idt.nr_bit
    pub small : idt.offset + idt.nr_bit < 2 ^ 31
    pub maps : length idt.idmap ≡ nr_pages shift idt.nr_bit
    pub nr_bits : (k : ℕ) → (map_at idt k).nr_bit ≡ min (2 ^ shift) (idt.nr_bit - k * 2 ^ shift)
    pub counts :
        (k : ℕ)
        → (map_at idt k).nr_free ≡ zeros (page_bits (map_at idt k).page) (map_at idt k).nr_bit
    pub total : idt.nr_free ≡ sum_free idt.idmap
    pub recent : (idt.last ≡ u32_mod - 1) ⊎ (idt.last < idt.nr_bit)

  module _ (idt : Idt) (k : ℕ) (page : ℕ → Bool) (free all recent : ℕ)
      (in_maps : k < length idt.idmap) where
    pub map_at-stored :
        (j : ℕ)
        → map_at (stored idt k page free all recent) j ≡ (
            if k == j
            then record (map_at idt k) { nr_free = free; page = some page }
            else map_at idt j)
    map_at-stored j =
        get_or-set idt.idmap k j (record (map_at idt k) { nr_free = free; page = some page }) no_map
          in_maps

    pub is_used-stored :
        (n : ℕ)
        → is_used (stored idt k page free all recent) n
          ≡ (if k == n / 2 ^ shift then page (n % 2 ^ shift) else is_used idt n)
    is_used-stored n =
        ap (λ (m : Idmap). page_bits m.page (n % 2 ^ shift)) (map_at-stored (n / 2 ^ shift))
        ∙ ground (arith)

    pub stored-IsValid :
        IsValid idt
        → free ≡ zeros page (map_at idt k).nr_bit
        → all + (map_at idt k).nr_free ≡ idt.nr_free + free
        → ((recent ≡ u32_mod - 1) ⊎ (recent < idt.nr_bit))
        → IsValid (stored idt k page free all recent)
    stored-IsValid v counted totals late = record {
      sized = v.sized;
      small = v.small;
      maps =
          length-set idt.idmap k (record (map_at idt k) { nr_free = free; page = some page })
          ∙ v.maps;
      nr_bits = λ j. elim (ℕ_discrete k j) [
        | yes e ↦ ground (arith, map_at-stored j, e, v.nr_bits j)
        | no ne ↦ ground (arith, map_at-stored j, ne, v.nr_bits j)
      ];
      counts = λ j. elim (ℕ_discrete k j) [
        | yes e ↦ ground (arith, map_at-stored j, e, counted)
        | no ne ↦ ground (arith, map_at-stored j, ne, v.counts j)
      ];
      total = omega (
        arith,
        totals,
        v.total,
        sum_free-set idt.idmap k (record (map_at idt k) { nr_free = free; page = some page })
            in_maps,
      );
      recent = late;
    }
