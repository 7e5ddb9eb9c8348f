-- ===== src/ListSort/Correct.antt =====
-- What `list_sort` of src/algorithm/list_sort.c does with a list of any length.
use mathlib.Core.List.{Perm}
use mathlib.Core.Path.{subst}
use skp.Common.{
  ℕ, zero, suc, ◌≡◌, refl, sym, ap, ◌∙◌, none, some, List, [], ◌∷◌, arith, get_or, replicate,
  append-nil,
}
use skp.Common.Int.{ℤ}
use skp.ListSort.{Linked, Parts, join, list_sort, max_list_length_bits}
use skp.ListSort.Order.{Comparison, insertion_sort}
use skp.ListSort.Levels.{gather-IsUnused, join-gather}
use skp.ListSort.Distribute.{Holds, distribute-Holds}
use skp.ListSort.Chain.{forward, LinksBack, merge_and_restore_back_links-merge}
use skp.ListSort.Reference.{
  IsSorted, equal, select, insertion_sort-IsSorted, insertion_sort-perm, insertion_sort-stable,
}

module _ {ℓ} {A : Type ℓ} where
  abbrev initial : Parts A
  initial = record { part = replicate (suc max_list_length_bits) []; max_lev = 0 }

  null_levels : (n i : ℕ) → get_or (replicate {A = List A} n []) i [] ≡ []
  null_levels zero i = refl
  null_levels (suc n) zero = refl
  null_levels (suc n) (suc i) = null_levels n i

module _ {ℓ} {A : Type ℓ} {cmp : A → A → ℤ} (o : Comparison cmp) where
  initial-Holds : Holds cmp [] initial
  initial-Holds = record {
    sized = refl;
    max_le = omega arith;
    unused = λ i h. null_levels 21 i;
    filled = λ h. absurd (omega arith);
    sorts = λ rest.
        gather-IsUnused cmp initial.part (insertion_sort cmp rest) (λ i h. null_levels 21 i);
  }

  -- With a comparison that is a total preorder `list_sort` returns on every list: it stays within its array of partial lists, and follows no
  -- NULL pointer. The nodes are then those of an insertion sort that puts each node before its
  -- equals, and the `prev` links lead back along them.
  pub list_sort-insertion_sort :
      (list : List A)
      → (out : Linked A) × (list_sort cmp list ≡ some out)
        × (forward out ≡ insertion_sort cmp list)
        × LinksBack out
  unfolding list_sort insertion_sort
  list_sort-insertion_sort [] = (record { nodes = []; last = none }, refl, refl, refl)
  list_sort-insertion_sort (x ∷ list) =
      let (s, runs, holds, full) = distribute-Holds o list x initial-Holds in
      let (out, finishes, same, back) =
        merge_and_restore_back_links-merge cmp (get_or s.part s.max_lev [])
          (join cmp s.max_lev s.part []) full in
      (
        out,
        rw (runs, list_sort) finishes,
        same
            ∙ join-gather cmp s.max_lev s.part [] holds.unused
                (omega (arith, holds.sized, holds.max_le))
            ∙ holds.sorts []
            ∙ ap (insertion_sort cmp) (append-nil (x ∷ list)),
        back,
      )

  -- `list_sort` with a comparison that is a total preorder returns the nodes of its list, each
  -- once, in ascending order, and those that compare equal in the order they had.
  pub list_sort-sorts :
      (list : List A)
      → (out : Linked A) × (list_sort cmp list ≡ some out)
        × IsSorted cmp (forward out)
        × Perm (forward out) list
        × ((z : A) → select (equal cmp z) (forward out) ≡ select (equal cmp z) list)
  list_sort-sorts list =
      let (out, runs, same, back) = list_sort-insertion_sort list in
      (
        out,
        runs,
        subst (IsSorted cmp) (sym same) (insertion_sort-IsSorted o list),
        subst (λ l. Perm l list) (sym same) (insertion_sort-perm cmp list),
        λ z. ap (select (equal cmp z)) same ∙ insertion_sort-stable o z list,
      )
