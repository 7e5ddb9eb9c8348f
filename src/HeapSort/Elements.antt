-- ===== src/HeapSort/Elements.antt =====
-- The sort of src/algorithm/heap_sort.c with places counted in elements and without a bound: what the loops on bytes
-- come to, and what is proved of them.
use skp.Common.{
  ℕ, zero, suc, ◌+◌, ◌-◌, ◌*◌, ◌/◌, Bool, ◌&&◌, List, ltb, if◌then◌else◌, get_or, set, length,
}

module _ {ℓ} {A : Type ℓ} (less : A → A → Bool) (d : A) where
  abbrev pub swap : List A → ℕ → ℕ → List A
  swap a i j = set (set a i (get_or a j d)) j (get_or a i d)

  abbrev pub child : List A → ℕ → ℕ → ℕ
  child a n r =
      let c = r * 2 + 1 in
      if ltb c (n - 1) && less (get_or a c d) (get_or a (c + 1) d) then c + 1 else c

  -- element `r` sinks among the first `n`, for `k` turns at most
  unfoldable pub sift : ℕ → List A → ℕ → ℕ → List A
  sift zero a n r = a
  sift (suc k) a n r =
      let c = child a n r in
      let sunk = sift k (swap a r c) n c in
      if ltb (r * 2 + 1) n then if less (get_or a r d) (get_or a c d) then sunk else a else a

  -- the elements below `i` sink, the last first
  unfoldable pub heapify : ℕ → List A → List A
  heapify zero a = a
  heapify (suc i) a = heapify i (sift (length a) a (length a) i)

  -- the greatest element goes to place `i`, the next to the place before it, and so on
  unfoldable pub sort_down : ℕ → List A → List A
  sort_down zero a = a
  sort_down (suc i) a = sort_down i (sift (length a) (swap a 0 (suc i)) (suc i) 0)

  unfoldable pub heap_sort : List A → List A
  heap_sort a = sort_down (length a - 1) (heapify (length a / 2) a)
