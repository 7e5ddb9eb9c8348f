-- ===== src/Pgalloc/Merge.antt =====
-- `__free_pages_bulk` of src/mm/pgalloc.c.
use Prim.Native.Nat.{bit_and, bit_xor}
use mathlib.Core.Path.{subst}
use skp.Common.{
  ℕ, zero, suc, ◌+◌, ◌-◌, ◌^◌, ◌≤◌, ◌<◌, ◌≡◌, ◌≢◌, ◌⊎◌, inl, inr, refl, sym, ap, ◌∙◌, Bool, true,
  Bool-cases, Option, none, some, ◌==◌, if◌then◌else◌, arith, ℕ_discrete,
}
use skp.Pgalloc.{
  FreeArea, Zone, Block, area_at, set_page_order, is_order, del_page, take_buddy, merge,
}
use skp.Pgalloc.Weigh.{
  weigh, weigh_list-del_page, weigh-store, contains, contains-del_page, length-del_page, IsAligned,
  AllAligned-del_page, Additive, IsListed, store-IsListed,
}
use skp.Pgalloc.Buddy.{page-Halves}

has_order : (o : Option ℕ) (k : ℕ) → is_order o k ≡ true → o ≡ some k
has_order none k h = cc
has_order (some j) k h = ap some (ground (arith, h))

-- What joining with buddies keeps, and the block that comes of it.
pub record Joins (top : ℕ) (zone : Zone) (order page : ℕ) (b : Block) : Type 0 where
  pub listed : IsListed top b.zone
  pub same_pages : b.zone.free_pages ≡ zone.free_pages
  pub same_bit : b.zone.has_free ≡ zone.has_free
  pub low : b.order ≤ top
  pub aligned : IsAligned b.order b.page
  pub weights :
      (w : ℕ → ℕ → ℕ) → Additive w → weigh w b.zone + w b.order b.page ≡ weigh w zone + w order page

module _ (top : ℕ) (zone : Zone) (buddy order : ℕ) (v : IsListed top zone) (lt : order < top)
    (has : zone.page_order buddy ≡ some order) where
  abbrev area : FreeArea
  area = record {
    free_list = del_page (area_at zone order).free_list buddy;
    nr_free = (area_at zone order).nr_free - 1;
  }

  there : contains buddy (area_at zone order).free_list ≡ true
  there = v.marked buddy order has lt

  marked_less :
      (p j : ℕ)
      → set_page_order zone.page_order buddy none p ≡ some j
      → j < top
      → (if order == j then contains p area.free_list else contains p (area_at zone j).free_list)
        ≡ true
  unfolding set_page_order
  marked_less p j o below =
      let other : p ≢ buddy = ground (arith, o) in
      let before : zone.page_order p ≡ some j = ground (arith, o, other) in
      let listed : contains p (area_at zone j).free_list ≡ true = v.marked p j before below in
      elim (ℕ_discrete order j) [
        | yes e ↦
            let still : contains p (area_at zone order).free_list ≡ true = rw e listed in
            ground (arith, e, contains-del_page p buddy (area_at zone order).free_list other still)
        | no ne ↦ ground (arith, ne, listed)
      ]

  take_buddy-IsListed : IsListed top (take_buddy zone buddy order)
  unfolding take_buddy
  take_buddy-IsListed =
      store-IsListed top zone order area (set_page_order zone.page_order buddy none) v
        (omega (arith, lt))
        (omega (arith, v.counts order, length-del_page buddy (area_at zone order).free_list there))
        (AllAligned-del_page order buddy (area_at zone order).free_list (v.aligned order))
        marked_less

  weigh-take_buddy :
      (w : ℕ → ℕ → ℕ) → weigh w (take_buddy zone buddy order) + w order buddy ≡ weigh w zone
  unfolding take_buddy
  weigh-take_buddy w = omega (
    arith,
    weigh-store w (record zone { page_order = set_page_order zone.page_order buddy none }) order
        area (omega (arith, v.orders, lt)),
    weigh_list-del_page w order buddy (area_at zone order).free_list there,
  )

same_pages-take_buddy :
    (zone : Zone) (buddy order : ℕ)
    → ((take_buddy zone buddy order).free_pages ≡ zone.free_pages)
      × ((take_buddy zone buddy order).has_free ≡ zone.has_free)
unfolding take_buddy
same_pages-take_buddy zone buddy order = (refl, refl)

pub merge-Joins :
    (top : ℕ) (zone : Zone) (page order more : ℕ)
    → IsListed top zone
    → order + more ≡ top
    → IsAligned order page
    → Joins top zone order page (merge zone page order more)
unfolding merge
merge-Joins top zone page order zero v e a = record {
  listed = v;
  same_pages = refl;
  same_bit = refl;
  low = omega (arith, e);
  aligned = a;
  weights = λ w add. refl;
}
merge-Joins top zone page order (suc more) v e a =
    let buddy = bit_xor page (2 ^ order) in
    let alone : Block = record { page = page; order = order; zone = zone } in
    let joined = merge (take_buddy zone buddy order) (bit_and page buddy) (suc order) more in
    elim (Bool-cases (is_order (zone.page_order buddy) order)) [
      | inl is ↦
          let lt : order < top = omega (arith, e) in
          let has = has_order (zone.page_order buddy) order is in
          let h = page-Halves order page a in
          let v1 = take_buddy-IsListed top zone buddy order v lt has in
          let (pages1, bit1) = same_pages-take_buddy zone buddy order in
          let all =
            merge-Joins top (take_buddy zone buddy order) (bit_and page buddy) (suc order) more v1
              (omega (arith, e)) (h.aligned.0, h.joined ∙ h.aligned.1) in
          subst (Joins top zone order page)
            (sym (ap (λ (b : Bool). if b then joined else alone) is))
            (record {
              listed = all.listed;
              same_pages = all.same_pages ∙ pages1;
              same_bit = all.same_bit ∙ bit1;
              low = all.low;
              aligned = all.aligned;
              weights = λ w add. omega (
                arith,
                all.weights w add,
                weigh-take_buddy top zone buddy order v lt has w,
                pair w h.first buddy add h.halves,
                ap (w (suc order)) h.joined,
              );
            })
      | inr no_buddy ↦
          subst (Joins top zone order page)
            (sym (ap (λ (b : Bool). if b then joined else alone) no_buddy))
            (record {
              listed = v;
              same_pages = refl;
              same_bit = refl;
              low = omega (arith, e);
              aligned = a;
              weights = λ w add. refl;
            })
    ]
  where
    pair :
        (w : ℕ → ℕ → ℕ) (first buddy : ℕ)
        → Additive w
        → ((page ≡ first) × (buddy ≡ first + 2 ^ order))
          ⊎ ((buddy ≡ first) × (page ≡ first + 2 ^ order))
        → w (suc order) first ≡ w order page + w order buddy
    pair w first buddy add (inl (p, q)) =
        omega (arith, add order first, ap (w order) p, ap (w order) q)
    pair w first buddy add (inr (p, q)) =
        omega (arith, add order first, ap (w order) p, ap (w order) q)
