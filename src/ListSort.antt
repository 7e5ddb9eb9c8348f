-- ===== src/ListSort.antt =====
-- src/algorithm/list_sort.c: the bottom-up merge sort of a linked list. A list is the sequence of its
-- nodes, and a NULL pointer is the empty list. `cmp` is the caller's comparison with its private data.
pub mod Order
pub mod Levels
pub mod Distribute
pub mod Chain
pub mod Correct
pub mod Reference
mod Tests
use skp.Common.{
  ℕ, zero, suc, ◌-◌, Bool, true, false, not, Option, none, some, List, [], ◌∷◌, ltb, leb,
  if◌then◌else◌, get_or, set, replicate,
}
use skp.Common.Int.{ℤ, is_positive}

abbrev pub max_list_length_bits : ℕ
max_list_length_bits = 20

-- What `list_sort` leaves behind: the nodes in order, each with the node its `prev` points at
-- (`none` for the head), and the node that the head's `prev` points at.
pub record Linked {ℓ} (A : Type ℓ) : Type ℓ where
  pub nodes : List (A × Option A)
  pub last : Option A

-- The array of sorted partial lists, and the highest level in use.
pub record Parts {ℓ} (A : Type ℓ) : Type ℓ where
  pub part : List (List A)
  pub max_lev : ℕ

module _ {ℓ} {A : Type ℓ} (cmp : A → A → ℤ) where
  -- `(*cmp)(priv, a, b) <= 0`
  abbrev pub takes : A → A → Bool
  takes a b = not (is_positive (cmp a b))

  pub merge : List A → List A → List A
  merge [] b = b
  merge (x ∷ a) [] = x ∷ a
  merge (x ∷ a) (y ∷ b) = elim (takes x y) [
    | true ↦ x ∷ merge a (y ∷ b)
    | false ↦ y ∷ merge (x ∷ a) b
  ]

  -- `for (lev = 0; part[lev]; lev++)`: the level reached, the array and `cur`; `none` is a read
  -- behind the end of the array.
  pub carry : List (List A) → List A → Option (ℕ × List (List A) × List A)
  carry [] cur = none
  carry ([] ∷ part) cur = some (0, [] ∷ part, cur)
  carry ((x ∷ p) ∷ part) cur = elim (carry part (merge (x ∷ p) cur)) [
    | none ↦ none
    | some (lev, part', cur') ↦ some (suc lev, [] ∷ part', cur')
  ]

  -- One turn of the loop over the list, for the node `x`.
  pub place : Parts A → A → Option (Parts A)
  place s x = elim (carry s.part (x ∷ [])) [
    | none ↦ none
    | some (lev, part, cur) ↦
        let capped = if leb max_list_length_bits lev then lev - 1 else lev in
        some (
          if ltb s.max_lev lev
          then record { part = set part capped cur; max_lev = capped }
          else record { part = set part lev cur; max_lev = s.max_lev })
  ]

  pub distribute : Parts A → List A → Option (Parts A)
  distribute s [] = some s
  distribute s (x ∷ list) = elim (place s x) [ none ↦ none | some t ↦ distribute t list ]

  -- `for (lev = 0; lev < max_lev; lev++)`, with the levels left
  pub join : ℕ → List (List A) → List A → List A
  join zero part list = list
  join (suc n) [] list = list
  join (suc n) ([] ∷ part) list = join n part list
  join (suc n) ((x ∷ p) ∷ part) list = join n part (merge (x ∷ p) list)

  -- The loop of `merge_and_restore_back_links` that goes on without comparing.
  pub restore : Option A → List A → List (A × Option A) × Option A
  restore tail [] = ([], tail)
  restore tail (x ∷ a) = let (nodes, last) = restore (some x) a in ((x, tail) ∷ nodes, last)

  -- Its first loop, with what comes after.
  pub merge_linked : Option A → List A → List A → List (A × Option A) × Option A
  merge_linked tail [] b = restore tail b
  merge_linked tail (x ∷ a) [] = restore tail (x ∷ a)
  merge_linked tail (x ∷ a) (y ∷ b) = elim (takes x y) [
    | true ↦ let (nodes, last) = merge_linked (some x) a (y ∷ b) in ((x, tail) ∷ nodes, last)
    | false ↦ let (nodes, last) = merge_linked (some y) (x ∷ a) b in ((y, tail) ∷ nodes, last)
  ]

  -- `none` is the NULL pointer that the second loop follows when both lists are empty. The calls of
  -- `cmp` in that loop, whose results are not used, are left out.
  pub merge_and_restore_back_links : List A → List A → Option (Linked A)
  unfolding merge_linked
  merge_and_restore_back_links [] [] = none
  merge_and_restore_back_links [] (y ∷ b) =
      let (nodes, last) = merge_linked none [] (y ∷ b) in
      some (record { nodes = nodes; last = last })
  merge_and_restore_back_links (x ∷ a) b =
      let (nodes, last) = merge_linked none (x ∷ a) b in
      some (record { nodes = nodes; last = last })

  pub list_sort : List A → Option (Linked A)
  list_sort [] = some (record { nodes = []; last = none })
  list_sort (x ∷ list) =
      elim (distribute (record { part = replicate (suc max_list_length_bits) []; max_lev = 0 })
        (x ∷ list)) [
          | none ↦ none
          | some s ↦
              merge_and_restore_back_links (get_or s.part s.max_lev []) (join s.max_lev s.part [])
        ]
