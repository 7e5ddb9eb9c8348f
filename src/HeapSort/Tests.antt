-- ===== src/HeapSort/Tests.antt =====
-- Runs of `heap_sort` of src/algorithm/heap_sort.c on numbers of 4 bytes, and its theorem at them.
use skp.Common.{ℕ, ◌≡◌, refl, List, [], ◌∷◌, ltb, arith}
use skp.HeapSort.{child, sift, heapify, sort_down, heap_sort}
use skp.HeapSort.Sift.{IsOrder}
use skp.HeapSort.Sorted.{IsSorted, Rearranged}
use skp.HeapSort.Correct.{heap_sort-IsSorted}

abbrev numbers : List ℕ
numbers = 3 ∷ 9 ∷ 1 ∷ 9 ∷ 4 ∷ 0 ∷ []

numbers-IsOrder : IsOrder ltb
numbers-IsOrder = record {
  asymmetric = λ x y h. ground (arith, h);
  transitive = λ x y z p q. ground (arith, p, q);
}

heap_sort-IsSorted_example :
    IsSorted ltb 0 (heap_sort ltb 0 4 numbers)
    × Rearranged ltb 0 numbers (heap_sort ltb 0 4 numbers)
heap_sort-IsSorted_example =
    heap_sort-IsSorted ltb 0 4 numbers numbers-IsOrder (omega arith) (omega arith) (omega arith)

numbers_sorted : heap_sort ltb 0 4 numbers ≡ 0 ∷ 1 ∷ 3 ∷ 4 ∷ 9 ∷ 9 ∷ []
unfolding heap_sort heapify sort_down sift child
numbers_sorted = refl
