-- ===== src/HeapSort/Correct.antt =====
-- What heap_sort of src/algorithm/heap_sort.c makes of an array of at most 2 ^ 30 bytes.
use mathlib.Core.Path.{subst}
use skp.Common.{ℕ, ◌*◌, ◌^◌, ◌≤◌, ◌<◌, sym, Bool, List, length}
use skp.HeapSort.{heap_sort}
use skp.HeapSort.Loops.{heap_sort_bytes}
use skp.HeapSort.Sift.{IsOrder}
use skp.HeapSort.Sorted.{IsSorted, Rearranged, sorts_elements}

-- In an array of elements of `size` bytes, from 1 to 2 ^ 30, which together are at most 2 ^ 30 bytes, heap_sort with an
-- order for its comparison leaves the elements in that order, none less than one before it, and each as often as before.
pub heap_sort-IsSorted {ℓ} :
    {A : Type ℓ} (less : A → A → Bool) (d : A) (size : ℕ) (a : List A)
    → IsOrder less
    → 0 < size
    → size ≤ 2 ^ 30
    → length a * size ≤ 2 ^ 30
    → IsSorted less d (heap_sort less d size a) × Rearranged less d a (heap_sort less d size a)
heap_sort-IsSorted less d size a order some_size fits bound =
    subst (λ t. IsSorted less d t × Rearranged less d a t)
      (sym (heap_sort_bytes less d size some_size fits a bound)) (sorts_elements less d a order)
