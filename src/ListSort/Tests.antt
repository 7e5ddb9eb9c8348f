-- ===== src/ListSort/Tests.antt =====
-- `list_sort` of src/algorithm/list_sort.c on pairs that are compared by their first component.
use mathlib.Core.List.{Perm}
use skp.Common.{ℕ, ◌≡◌, refl, none, some, List, [], ◌∷◌, arith, ltb, if◌then◌else◌}
use skp.Common.Int.{ℤ, pos, negsuc}
use skp.ListSort.{
  Linked, list_sort, merge, carry, place, distribute, join, restore, merge_linked,
  merge_and_restore_back_links,
}
use skp.ListSort.Order.{Comparison, insertion_sort}
use skp.ListSort.Chain.{forward, LinksBack}
use skp.ListSort.Reference.{IsSorted, equal, select}
use skp.ListSort.Correct.{list_sort-insertion_sort, list_sort-sorts}

abbrev by_key : ℕ × ℕ → ℕ × ℕ → ℤ
by_key a b = if ltb a.0 b.0 then negsuc 0 else if ltb b.0 a.0 then pos 1 else pos 0

by_key-Comparison : Comparison by_key
by_key-Comparison = record {
  total = λ a b h. ground (arith, h);
  trans = λ a b c h k. ground (arith, h, k);
}

abbrev entries : List (ℕ × ℕ)
entries = (3, 0) ∷ (1, 1) ∷ (2, 2) ∷ (1, 3) ∷ (2, 4) ∷ []

abbrev sorted : List (ℕ × ℕ)
sorted = (1, 1) ∷ (1, 3) ∷ (2, 2) ∷ (2, 4) ∷ (3, 0) ∷ []

sorts_entries :
    list_sort by_key entries
    ≡ some (record {
      nodes =
          ((1, 1), none)
          ∷ ((1, 3), some (1, 1))
          ∷ ((2, 2), some (1, 3))
          ∷ ((2, 4), some (2, 2))
          ∷ ((3, 0), some (2, 4))
          ∷ [];
      last = some (3, 0);
    })
unfolding list_sort merge carry place distribute join restore merge_linked
    merge_and_restore_back_links
sorts_entries = refl

list_sort-insertion_sort_example :
    (out : Linked (ℕ × ℕ)) × (list_sort by_key entries ≡ some out)
    × (forward out ≡ insertion_sort by_key entries)
    × LinksBack out
list_sort-insertion_sort_example = list_sort-insertion_sort by_key-Comparison entries

list_sort-sorts_example :
    (out : Linked (ℕ × ℕ)) × (list_sort by_key entries ≡ some out)
    × IsSorted by_key (forward out)
    × Perm (forward out) entries
    × ((z : ℕ × ℕ) → select (equal by_key z) (forward out) ≡ select (equal by_key z) entries)
list_sort-sorts_example = list_sort-sorts by_key-Comparison entries
