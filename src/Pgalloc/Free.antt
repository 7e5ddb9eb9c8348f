-- ===== src/Pgalloc/Free.antt =====
-- `__free_pages_bulk` of src/mm/pgalloc.c, with the block that it makes put into its list.
use skp.Common.{
  ℕ, zero, suc, ◌+◌, ◌-◌, ◌^◌, ◌≤◌, ◌<◌, ◌≡◌, inl, inr, refl, ap, ◌∙◌, true, false, Option, none,
  some, List, [], ◌∷◌, ◌==◌, if◌then◌else◌, length, arith, ℕ_discrete,
}
use skp.Common.Word.{sub32}
use skp.Pgalloc.{FreeArea, Zone, Block, area_at, store_area, set_page_order, put_block, reclaim}
use skp.Pgalloc.Weigh.{
  List-cases, weigh, weigh_list, weigh-store, contains, IsAligned, AllAligned, pages, IsListed,
  store-IsListed, area_at_same, IsValid,
}

module _ (top : ℕ) (b : Block) (v : IsListed top b.zone) (le : b.order ≤ top)
    (a : IsAligned b.order b.page) where
  abbrev with_block : FreeArea
  with_block = record {
    free_list = b.page ∷ (area_at b.zone b.order).free_list;
    nr_free = suc (area_at b.zone b.order).nr_free;
  }

  marked_more :
      (p j : ℕ)
      → set_page_order b.zone.page_order b.page (some b.order) p ≡ some j
      → j < top
      → (if b.order == j
          then contains p with_block.free_list
          else contains p (area_at b.zone j).free_list)
        ≡ true
  unfolding set_page_order
  marked_more p j o below = elim (ℕ_discrete p b.page) [
    | yes e ↦ let here : b.order ≡ j = ground (arith, o, e) in ground (arith, here, e)
    | no ne ↦
        let before : b.zone.page_order p ≡ some j = ground (arith, o, ne) in
        let listed : contains p (area_at b.zone j).free_list ≡ true = v.marked p j before below in
        elim (ℕ_discrete b.order j) [
          | yes e ↦
              let still : contains p (area_at b.zone b.order).free_list ≡ true = rw e listed in
              ground (arith, e, still)
          | no other ↦ ground (arith, other, listed)
        ]
  ]

  pub put_block-IsListed : IsListed top (put_block b)
  unfolding put_block
  put_block-IsListed =
      store-IsListed top b.zone b.order with_block
        (set_page_order b.zone.page_order b.page (some b.order)) v le
        (omega (arith, v.counts b.order)) (a, v.aligned b.order) marked_more

  pub weigh-put_block : (w : ℕ → ℕ → ℕ) → weigh w (put_block b) ≡ weigh w b.zone + w b.order b.page
  unfolding put_block
  weigh-put_block w = omega (
    arith,
    weigh-store w
        (record b.zone { page_order = set_page_order b.zone.page_order b.page (some b.order) })
        b.order with_block (omega (arith, v.orders, le)),
  )

  pub put_block_keeps :
      ((put_block b).free_pages ≡ b.zone.free_pages) × ((put_block b).has_free ≡ b.zone.has_free)
  unfolding put_block
  put_block_keeps = (refl, refl)

-- Blocks of the highest order leave the zone.
pub record Reclaims (top : ℕ) (zone : Zone) (n : ℕ) (taken : List ℕ)
    (result : Option (List ℕ × Zone)) : Type 0 where
  pub blocks : List ℕ
  pub zone' : Zone
  pub runs : result ≡ some (blocks, zone')
  pub valid : IsValid top zone'
  pub number : length blocks ≡ n + length taken
  pub weights :
      (w : ℕ → ℕ → ℕ)
      → weigh w zone' + weigh_list w top blocks ≡ weigh w zone + weigh_list w top taken

module _ (top : ℕ) (zone : Zone) (page : ℕ) (rest : List ℕ) (v : IsValid top zone)
    (list : (area_at zone top).free_list ≡ page ∷ rest) where
  abbrev fewer : FreeArea
  fewer = record { free_list = rest; nr_free = (area_at zone top).nr_free - 1 }

  abbrev left : ℕ
  left = sub32 zone.free_pages (2 ^ top)

  abbrev reclaimed : Zone
  reclaimed = record (store_area zone top fewer) {
    free_pages = left;
    has_free = if left == 0 then false else zone.has_free;
  }

  weigh-reclaimed : (w : ℕ → ℕ → ℕ) → weigh w reclaimed + w top page ≡ weigh w zone
  weigh-reclaimed w = omega (
    arith,
    weigh-store w zone top fewer (omega (arith, v.listed.orders)),
    ap (weigh_list w top) list,
  )

  reclaimed-IsValid : IsValid top reclaimed
  reclaimed-IsValid =
      let all : AllAligned top (page ∷ rest) = rw list at (v.listed.aligned top) in
      let u =
        store-IsListed top zone top fewer zone.page_order v.listed (omega arith)
          (omega (arith, v.listed.counts top, ap length list)) all.1
          (λ p j o below. ground (arith, v.listed.marked p j o below, below)) in
      let less : left + 2 ^ top ≡ zone.free_pages =
        omega (arith, weigh-reclaimed pages, v.total, v.room) in
      record {
        listed = record {
          orders = u.orders;
          counts = u.counts;
          aligned = u.aligned;
          marked = u.marked;
        };
        total = omega (arith, less, weigh-reclaimed pages, v.total);
        room = omega (arith, weigh-reclaimed pages, v.room);
        bit = ground (arith, v.bit, less);
      }

pub reclaim-Reclaims :
    (top : ℕ) (zone : Zone) (n : ℕ) (taken : List ℕ)
    → IsValid top zone
    → n ≤ length (area_at zone top).free_list
    → Reclaims top zone n taken (reclaim top zone n taken)
unfolding reclaim
reclaim-Reclaims top zone zero taken v h = record {
  blocks = taken;
  zone' = zone;
  runs = refl;
  valid = v;
  number = omega arith;
  weights = λ w. refl;
}
reclaim-Reclaims top zone (suc n) taken v h = elim (List-cases (area_at zone top).free_list) [
  | inl list ↦ absurd (omega (arith, h, ap length list))
  | inr (page, rest, list) ↦
      let here : (area_at (reclaimed top zone page rest v list) top).free_list ≡ rest =
        ap (λ (a : FreeArea). a.free_list)
          (area_at_same zone top (fewer top zone page rest v list)
            (omega (arith, v.listed.orders))) in
      let all =
        reclaim-Reclaims top (reclaimed top zone page rest v list) n (page ∷ taken)
          (reclaimed-IsValid top zone page rest v list)
          (omega (arith, h, ap length list, ap length here)) in
      record {
        blocks = all.blocks;
        zone' = all.zone';
        runs = ap with_list list ∙ all.runs;
        valid = all.valid;
        number = omega (arith, all.number);
        weights = λ w. omega (arith, all.weights w, weigh-reclaimed top zone page rest v list w);
      }
]
  where
    with_list : List ℕ → Option (List ℕ × Zone)
    with_list [] = none
    with_list (p ∷ ps) =
        let left = sub32 zone.free_pages (2 ^ top) in
        let z1 =
          store_area zone top
            (record { free_list = ps; nr_free = (area_at zone top).nr_free - 1 }) in
        reclaim top
          (record z1 { free_pages = left; has_free = if left == 0 then false else zone.has_free }) n
          (p ∷ taken)
