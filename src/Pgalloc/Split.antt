-- ===== src/Pgalloc/Split.antt =====
-- `expand` of src/mm/pgalloc.c.
use native.Mathlib.Nat.{add-suc}
use skp.Common.{
  ℕ, zero, suc, ◌+◌, ◌*◌, ◌^◌, ◌≤◌, ◌<◌, ◌≡◌, refl, sym, ap, ◌∙◌, true, some, [], ◌∷◌, ◌++◌, ◌==◌,
  if◌then◌else◌, length-append, arith, ℕ_discrete,
}
use skp.Pgalloc.{Zone, area_at, set_page_order, split_off, expand}
use skp.Pgalloc.Weigh.{
  weigh, weigh_list-append, weigh-store, contains, contains-append_left, contains-append_right,
  IsAligned, AllAligned-append, Additive, even_lem, second_half, IsListed, store-IsListed,
}

-- What splitting keeps: `w` more or less in the lists is stated beside it.
pub record Splits (top : ℕ) (zone zone' : Zone) : Type 0 where
  pub listed : IsListed top zone'
  pub same_pages : zone'.free_pages ≡ zone.free_pages
  pub same_bit : zone'.has_free ≡ zone.has_free

module _ (top : ℕ) (zone : Zone) (page high : ℕ) (v : IsListed top zone) (le : high ≤ top) where
  abbrev half : ℕ
  half = page + 2 ^ high

  marked_half :
      (p j : ℕ)
      → set_page_order zone.page_order half (some high) p ≡ some j
      → j < top
      → (if high == j
          then contains p ((area_at zone high).free_list ++ (half ∷ []))
          else contains p (area_at zone j).free_list)
        ≡ true
  unfolding set_page_order
  marked_half p j o lt = elim (ℕ_discrete p half) [
    | yes e ↦
        let here : high ≡ j = ground (arith, o, e) in
        let last : contains p (half ∷ []) ≡ true = ground (arith, e) in
        ground (arith, here, contains-append_right p (area_at zone high).free_list (half ∷ []) last)
    | no ne ↦
        let before : zone.page_order p ≡ some j = ground (arith, o, ne) in
        let listed : contains p (area_at zone j).free_list ≡ true = v.marked p j before lt in
        elim (ℕ_discrete high j) [
          | yes e ↦
              let there : contains p (area_at zone high).free_list ≡ true = rw e listed in
              ground
                (arith, e, contains-append_left p (area_at zone high).free_list (half ∷ []) there)
          | no other ↦ ground (arith, other, listed)
        ]
  ]

  split_off-Splits : IsAligned high half → Splits top zone (split_off zone page high)
  unfolding split_off
  split_off-Splits a = record {
    listed =
        store-IsListed top zone high
          (record {
            free_list = (area_at zone high).free_list ++ (half ∷ []);
            nr_free = suc (area_at zone high).nr_free;
          })
          (set_page_order zone.page_order half (some high)) v le
          (omega (arith, v.counts high, length-append (area_at zone high).free_list (half ∷ [])))
          (AllAligned-append high (area_at zone high).free_list (half ∷ []) (v.aligned high)
            (a, tt))
          marked_half;
    same_pages = refl;
    same_bit = refl;
  }

  weigh-split_off :
      (w : ℕ → ℕ → ℕ) → weigh w (split_off zone page high) ≡ weigh w zone + w high half
  unfolding split_off
  weigh-split_off w = omega (
    arith,
    weigh-store w (record zone { page_order = set_page_order zone.page_order half (some high) })
        high
        (record {
          free_list = (area_at zone high).free_list ++ (half ∷ []);
          nr_free = suc (area_at zone high).nr_free;
        })
        (omega (arith, v.orders, le)),
    weigh_list-append w high (area_at zone high).free_list (half ∷ []),
  )

-- Splitting a block down to order `low` puts back what the block has more than its first part.
pub expand-Splits :
    (top : ℕ) (zone : Zone) (page low more : ℕ)
    → IsListed top zone
    → low + more ≤ top
    → IsAligned (low + more) page
    → Splits top zone (expand zone page low more)
      × IsAligned low page
      × ((w : ℕ → ℕ → ℕ)
          → Additive w
          → weigh w (expand zone page low more) + w low page ≡ weigh w zone + w (low + more) page)
unfolding expand
expand-Splits top zone page low zero v le (m, e) =
    let same : low + 0 ≡ low = omega arith in
    (
      record { listed = v; same_pages = refl; same_bit = refl },
      (m, e ∙ ap (λ k. m * 2 ^ k) same),
      λ w a. ap (λ k. weigh w zone + w k page) (sym same),
    )
expand-Splits top zone page low (suc more) v le (m, e) =
    let high = low + more in
    let next : low + suc more ≡ suc high = add-suc low more in
    let whole : page ≡ m * 2 ^ suc high = e ∙ ap (λ k. m * 2 ^ k) next in
    let under : high ≤ top = omega (arith, le) in
    let second : IsAligned high (page + 2 ^ high) =
      (m * 2 + 1, ap (λ t. t + 2 ^ high) whole ∙ second_half m high) in
    let one = split_off-Splits top zone page high v under second in
    let (all, aligned, weights) =
      expand-Splits top (split_off zone page high) page low more one.listed under
        (m * 2, whole ∙ even_lem m high) in
    (
      record {
        listed = all.listed;
        same_pages = all.same_pages ∙ one.same_pages;
        same_bit = all.same_bit ∙ one.same_bit;
      },
      aligned,
      λ w a. omega (
        arith,
        weights w a,
        weigh-split_off top zone page high v under w,
        a high page,
        ap (λ k. w k page) next,
      ),
    )
