-- ===== src/Pgalloc/Take.antt =====
-- `__rmqueue` of src/mm/pgalloc.c: a block comes out, and what is left of a larger one goes back.
use skp.Common.{
  ℕ, zero, suc, ◌+◌, ◌-◌, ◌*◌, ◌^◌, ◌≤◌, ◌<◌, ◌≡◌, ◌≢◌, ◌⊎◌, inl, inr, refl, sym, ap, ◌∙◌, true,
  false, Option, none, some, List, [], ◌∷◌, ◌==◌, if◌then◌else◌, length, arith, ℕ_discrete,
}
use skp.Common.Word.{sub32}
use skp.Pgalloc.{
  FreeArea, Zone, area_at, store_area, set_page_order, expand, take_block, rmqueue_from, rmqueue,
}
use skp.Pgalloc.Weigh.{
  weigh, weigh_list, weigh-store, contains, List-cases, IsAligned, AllAligned, Additive, pages,
  covers, pages-Additive, covers-Additive, IsListed, store-IsListed, IsValid,
}
use skp.Pgalloc.Split.{expand-Splits}

-- A block of 2 ^ `order` pages was taken out: it begins at a multiple of its size, each page is in a free block as
-- often as before but for those of the block, and the zone is as it is between calls.
pub record Taken (top : ℕ) (zone zone' : Zone) (order page : ℕ) : Type 0 where
  pub valid : IsValid top zone'
  pub aligned : IsAligned order page
  pub fewer : weigh pages zone' + 2 ^ order ≡ weigh pages zone
  pub covered : (x : ℕ) → weigh (covers x) zone' + covers x order page ≡ weigh (covers x) zone

module _ (top : ℕ) (zone : Zone) (order k page : ℕ) (rest : List ℕ) (v : IsValid top zone)
    (lo : order ≤ k) (hi : k ≤ top) (list : (area_at zone k).free_list ≡ page ∷ rest) where
  abbrev area : FreeArea
  area = record { free_list = rest; nr_free = (area_at zone k).nr_free - 1 }

  abbrev orders : ℕ → Option ℕ
  orders = set_page_order zone.page_order page none

  abbrev left : ℕ
  left = sub32 zone.free_pages (2 ^ order)

  abbrev popped : Zone
  popped = record (store_area (record zone { page_order = orders }) k area) { free_pages = left }

  marked_rest :
      (p j : ℕ)
      → orders p ≡ some j
      → j < top
      → (if k == j then contains p rest else contains p (area_at zone j).free_list) ≡ true
  unfolding set_page_order
  marked_rest p j o lt =
      let other : p ≢ page = ground (arith, o) in
      let before : zone.page_order p ≡ some j = ground (arith, o, other) in
      let listed : contains p (area_at zone j).free_list ≡ true = v.listed.marked p j before lt in
      elim (ℕ_discrete k j) [
        | yes e ↦
            let there : contains p (page ∷ rest) ≡ true =
              ap (contains p) (sym list)
              ∙ ap (λ i. contains p (area_at zone i).free_list) e
              ∙ listed in
            ground (arith, e, there, other)
        | no ne ↦ ground (arith, ne, listed)
      ]

  popped-IsListed : IsListed top popped
  popped-IsListed =
      let all : AllAligned k (page ∷ rest) = rw list at (v.listed.aligned k) in
      let u =
        store-IsListed top zone k area orders v.listed hi
          (omega (arith, v.listed.counts k, ap length list)) all.1 marked_rest in
      record { orders = u.orders; counts = u.counts; aligned = u.aligned; marked = u.marked }

  weigh-popped : (w : ℕ → ℕ → ℕ) → weigh w popped + w k page ≡ weigh w zone
  weigh-popped w = omega (
    arith,
    weigh-store w (record zone { page_order = orders }) k area (omega (arith, v.listed.orders, hi)),
    ap (weigh_list w k) list,
  )

  -- what `take_block` leaves
  abbrev opened : Zone
  opened =
      let z2 = expand popped page order (k - order) in
      record z2 { has_free = if left == 0 then false else z2.has_free }

  -- what `take_block` does with a list
  abbrev with_list : List ℕ → Option (Option ℕ × Zone)
  with_list [] = none
  with_list (p ∷ ps) =
      let z1 =
        store_area (record zone { page_order = set_page_order zone.page_order p none }) k
          (record { free_list = ps; nr_free = (area_at zone k).nr_free - 1 }) in
      let z2 = expand (record z1 { free_pages = left }) p order (k - order) in
      some (some p, record z2 { has_free = if left == 0 then false else z2.has_free })

  take_block_steps : take_block zone order k ≡ some (some page, opened)
  unfolding take_block
  take_block_steps = ap with_list list

  opened-Taken : Taken top zone opened order page
  opened-Taken =
      let back : order + (k - order) ≡ k = omega (arith, lo) in
      let whole : IsAligned k page = (rw list at (v.listed.aligned k)).0 in
      let (split, aligned, weights) =
        expand-Splits top popped page order (k - order) popped-IsListed (omega (arith, back, hi))
          (whole.0, whole.1 ∙ ap (λ n. whole.0 * 2 ^ n) (sym back)) in
      let all : (w : ℕ → ℕ → ℕ) → Additive w → weigh w opened + w order page ≡ weigh w zone =
        λ w a. omega (arith, weights w a, weigh-popped w, ap (λ n. w n page) back) in
      let fewer : left + 2 ^ order ≡ zone.free_pages =
        omega (arith, all pages pages-Additive, v.total, v.room) in
      record {
        valid = record {
          listed = record {
            orders = split.listed.orders;
            counts = split.listed.counts;
            aligned = split.listed.aligned;
            marked = split.listed.marked;
          };
          total = omega (arith, split.same_pages, fewer, all pages pages-Additive, v.total);
          room = omega (arith, all pages pages-Additive, v.room);
          bit = ground (arith, split.same_pages, split.same_bit, v.bit, fewer);
        };
        aligned = aligned;
        fewer = all pages pages-Additive;
        covered = λ x. all (covers x) (covers-Additive x);
      }

-- What `__rmqueue` may do: it takes a block out, or returns NULL where no list from `k` on has a block.
abbrev pub Removes : ℕ → Zone → ℕ → ℕ → Option (Option ℕ × Zone) → Type 0
Removes top zone order k result =
    ((page : ℕ) × (zone' : Zone) × (result ≡ some (some page, zone'))
      × Taken top zone zone' order page)
    ⊎ ((result ≡ some (none, zone)) × ((j : ℕ) → k ≤ j → j ≤ top → (area_at zone j).free_list ≡ []))

rmqueue_from-Removes :
    (top : ℕ) (zone : Zone) (order k n : ℕ)
    → IsValid top zone
    → order ≤ k
    → k + n ≡ suc top
    → Removes top zone order k (rmqueue_from zone order k n)
unfolding rmqueue_from
rmqueue_from-Removes top zone order k zero v lo e =
    inr (refl, λ j p q. absurd (omega (arith, p, q, e)))
rmqueue_from-Removes top zone order k (suc n) v lo e =
    elim (List-cases (area_at zone k).free_list) [
      | inr (page, rest, list) ↦
          let some_block : (area_at zone k).nr_free ≢ 0 =
            omega (arith, v.listed.counts k, ap length list) in
          let hi : k ≤ top = omega (arith, e) in
          inl (
            page,
            opened top zone order k page rest v lo hi list,
            ground (arith, some_block) ∙ take_block_steps top zone order k page rest v lo hi list,
            opened-Taken top zone order k page rest v lo hi list,
          )
      | inl list ↦
          let no_block : (area_at zone k).nr_free ≡ 0 = v.listed.counts k ∙ ap length list in
          let goes_on : rmqueue_from zone order k (suc n) ≡ rmqueue_from zone order (suc k) n =
            ground (arith, no_block) in
          elim (rmqueue_from-Removes top zone order (suc k) n v (omega (arith, lo))
            (omega (arith, e))) [
              | inl (page, zone', runs, taken) ↦ inl (page, zone', goes_on ∙ runs, taken)
              | inr (runs, empty) ↦ inr (
                goes_on ∙ runs,
                λ j p q. elim (ℕ_discrete k j) [
                  | yes here ↦ ap (λ i. (area_at zone i).free_list) (sym here) ∙ list
                  | no ne ↦ empty j (omega (arith, p, ne)) q
                ],
              )
            ]
    ]

-- In a zone between calls `__rmqueue` for an order up to the highest returns. It takes out a block of 2 ^ order
-- pages that begins at a multiple of its size, and each page is in the free blocks as often as before less once for
-- the pages of that block, or it returns NULL and changes nothing, where no list of that order or a higher one has a block.
pub rmqueue-Removes :
    (top : ℕ) (zone : Zone) (order : ℕ)
    → IsValid top zone
    → order ≤ top
    → Removes top zone order order (rmqueue top zone order)
unfolding rmqueue
rmqueue-Removes top zone order v le =
    rmqueue_from-Removes top zone order order (suc top - order) v (omega arith) (omega (arith, le))
