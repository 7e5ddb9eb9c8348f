-- ===== src/HeapSort.antt =====
-- src/algorithm/heap_sort.c: sorting an array in its place. As in the code, places are offsets in bytes, of elements of
-- `size` bytes: an int is its 32 bits, and a size_t is a number below 2 ^ 64, on a machine where these are the widths
-- and where an int that overflows wraps. `less a b` stands for cmp_func(a, b) < 0, and `d` for what is read behind the
-- array. The element at an offset is the one that the offset lies in: offsets are multiples of `size` as long as no int
-- overflows.
pub mod Elements
pub mod Sift
pub mod Sink
pub mod Sorted
pub mod Bytes
pub mod Loops
pub mod Correct
mod Tests
use skp.Common.{
  ℕ, zero, suc, ◌+◌, ◌-◌, ◌*◌, ◌/◌, ◌%◌, ◌^◌, Bool, true, false, ◌&&◌, List, ltb, if◌then◌else◌,
  get_or, set, length,
}
use skp.Common.Word.{u32_mod}

abbrev pub u64_mod : ℕ
u64_mod = 2 ^ 64

-- an int as a size_t, with its sign
abbrev pub to_size : ℕ → ℕ
to_size i = if ltb i (2 ^ 31) then i else i + (u64_mod - u32_mod)

abbrev pub to_int : ℕ → ℕ
to_int x = x % u32_mod

abbrev pub add64 : ℕ → ℕ → ℕ
add64 x y = (x + y) % u64_mod

abbrev pub sub64 : ℕ → ℕ → ℕ
sub64 x y = (x + u64_mod - y) % u64_mod

-- `r * 2 + size` of an int `r`
abbrev pub left_child : ℕ → ℕ → ℕ
left_child size r = add64 (to_size (to_int (r * 2))) size

-- `i -= size` of an int `i`
abbrev pub step_down : ℕ → ℕ → ℕ
step_down size i = to_int (sub64 (to_size i) size)

module _ {ℓ} {A : Type ℓ} (less : A → A → Bool) (d : A) (size : ℕ) where
  -- the element at an offset
  abbrev pub elem_at : List A → ℕ → A
  elem_at a offset = get_or a (offset / size) d

  -- the swap functions, which all do the same
  abbrev pub swap : List A → ℕ → ℕ → List A
  swap a x y = set (set a (x / size) (elem_at a y)) (y / size) (elem_at a x)

  -- `c`: the child of the element at `r` that is to be compared with it, of those before `n`
  pub child : List A → ℕ → ℕ → ℕ
  child a n r =
      let c = to_int (left_child size r) in
      if ltb (to_size c) (sub64 (to_size n) size)
        && less (elem_at a (to_size c)) (elem_at a (to_size c + size))
      then to_int (add64 (to_size c) size)
      else c

  -- The loop that lets the element at `r` sink among those before `n`, for `k` turns at most.
  pub sift : ℕ → List A → ℕ → ℕ → List A
  sift zero a n r = a
  sift (suc k) a n r =
      let c = child a n r in
      let sunk = sift k (swap a r c) n c in
      if ltb (left_child size r) (to_size n)
      then if less (elem_at a r) (elem_at a c) then sunk else a
      else a

  -- The first loop from `i` on, for `k` turns at most.
  pub heapify : ℕ → List A → ℕ → ℕ → List A
  heapify zero a n i = a
  heapify (suc k) a n i =
      let rest = heapify k (sift (length a) a n i) n (step_down size i) in
      if ltb i (2 ^ 31) then rest else a

  -- The second loop from `i` on, for `k` turns at most.
  pub sort_down : ℕ → List A → ℕ → List A
  sort_down zero a i = a
  sort_down (suc k) a i =
      let rest = sort_down k (sift (length a) (swap a 0 i) i 0) (step_down size i) in
      if ltb 0 i && ltb i (2 ^ 31) then rest else a

  -- `heap_sort` with a turn of each loop for each element and one for the test that ends it.
  pub heap_sort : List A → List A
  heap_sort a =
      let num = length a in
      let i = to_int ((sub64 (num / 2) 1 * size) % u64_mod) in
      let n = to_int ((num * size) % u64_mod) in
      sort_down (suc num) (heapify (suc num) a n i) (step_down size n)
