-- ===== src/HeapSort/Loops.antt =====
-- The two loops of heap_sort of src/algorithm/heap_sort.c come to those on elements, in an array of at most 2 ^ 30 bytes.
use mathlib.Core.Path.{ap₂}
use native.Mathlib.Nat.{mul-le-mul_right}
use skp.Common.{
  ℕ, zero, suc, ◌+◌, ◌-◌, ◌*◌, ◌/◌, ◌%◌, ◌^◌, ◌≤◌, ◌<◌, ◌≡◌, refl, sym, ap, ◌∙◌, Bool, true, false,
  ◌&&◌, List, ltb, if◌then◌else◌, get_or, length, arith, dec_lt,
}
use skp.HeapSort.{u64_mod, to_int, sub64, step_down, swap, sift, heapify, sort_down, heap_sort}
use skp.HeapSort.Bytes.{step_down-suc, step_down-zero, scaled, swap_lem, sift_bytes}
use skp.HeapSort.Elements
use skp.HeapSort.Sift.{length-swap}

module _ {ℓ} {A : Type ℓ} (less : A → A → Bool) (d : A) where
  length_if :
      (b : Bool) (x a : List A) → length x ≡ length a → length (if b then x else a) ≡ length a
  length_if true x a h = h
  length_if false x a h = refl

  length-sift : (k : ℕ) (a : List A) (n r : ℕ) → length (Elements.sift less d k a n r) ≡ length a
  unfolding Elements.sift
  length-sift zero a n r = refl
  length-sift (suc k) a n r =
      let c = Elements.child less d a n r in
      length_if (ltb (r * 2 + 1) n) _ a (
        length_if (less (get_or a r d) (get_or a c d)) _ a
          (length-sift k (Elements.swap less d a r c) n c ∙ length-swap less d a r c))

  module _ (size : ℕ) (some_size : 0 < size) (fits : size ≤ 2 ^ 30) where
    -- an int below 0 ends both loops
    heapify_stops :
        (k : ℕ) (a : List A) (n i : ℕ) → ltb i (2 ^ 31) ≡ false → heapify less d size k a n i ≡ a
    unfolding heapify
    heapify_stops zero a n i below = refl
    heapify_stops (suc k) a n i below =
        ap
          (λ b.
            if b
            then heapify less d size k (sift less d size (length a) a n i) n (step_down size i)
            else a)
          below

    sort_down_stops :
        (k : ℕ) (a : List A) (i : ℕ)
        → (ltb 0 i && ltb i (2 ^ 31)) ≡ false
        → sort_down less d size k a i ≡ a
    unfolding sort_down
    sort_down_stops zero a i below = refl
    sort_down_stops (suc k) a i below =
        ap
          (λ b.
            if b
            then sort_down less d size k (sift less d size (length a) (swap less d size a 0 i) i 0)
                (step_down size i)
            else a)
          below

    -- one turn of the first loop
    heapify_turn :
        (k i m : ℕ) (a : List A)
        → i < m
        → length a ≡ m
        → m * size ≤ 2 ^ 30
        → heapify less d size (suc k) a (m * size) (i * size)
          ≡ heapify less d size k
              (Elements.sift less d (length a) a (length a) i)
              (m * size)
              (step_down size (i * size))
    unfolding heapify
    heapify_turn k i m a inside len bound =
        let small : i * size ≤ 2 ^ 30 = scaled size some_size i m (omega (arith, inside)) bound in
        let first : ltb (i * size) (2 ^ 31) ≡ true = ground (arith, small) in
        let sunk : sift less d size (length a) a (m * size) (i * size)
            ≡ Elements.sift less d (length a) a (length a) i =
          sift_bytes size some_size less d (length a) a m i inside bound
          ∙ ap (λ t. Elements.sift less d (length a) a t i) (sym len) in
        ap
          (λ t.
            if t
            then heapify less d size k (sift less d size (length a) a (m * size) (i * size))
                (m * size) (step_down size (i * size))
            else a)
          first
        ∙ ap (λ t. heapify less d size k t (m * size) (step_down size (i * size))) sunk

    heapify_bytes :
        (k i m : ℕ) (a : List A)
        → i < k
        → i < m
        → length a ≡ m
        → m * size ≤ 2 ^ 30
        → heapify less d size k a (m * size) (i * size) ≡ Elements.heapify less d (suc i) a
    unfolding Elements.heapify
    heapify_bytes zero i m a turns inside len bound = elim turns [ ]
    heapify_bytes (suc k) zero m a turns inside len bound =
        let none : 0 * size ≡ 0 = omega arith in
        heapify_turn k 0 m a inside len bound
        ∙ heapify_stops k (Elements.sift less d (length a) a (length a) 0) (m * size)
            (step_down size (0 * size))
            (ap (λ t. ltb (step_down size t) (2 ^ 31)) none ∙ step_down-zero size some_size fits)
    heapify_bytes (suc k) (suc i) m a turns inside len bound =
        let b = Elements.sift less d (length a) a (length a) (suc i) in
        heapify_turn k (suc i) m a inside len bound
        ∙ ap (heapify less d size k b (m * size)) (
            step_down-suc size some_size i
              (scaled size some_size (suc i) m (omega (arith, inside)) bound))
        ∙ heapify_bytes k i m b (omega (arith, turns)) (omega (arith, inside))
            (length-sift (length a) a (length a) (suc i) ∙ len) bound

    sort_down_bytes :
        (k i m : ℕ) (a : List A)
        → i < k
        → i < m
        → m * size ≤ 2 ^ 30
        → sort_down less d size k a (i * size) ≡ Elements.sort_down less d i a
    unfolding sort_down Elements.sort_down
    sort_down_bytes zero i m a turns inside bound = elim turns [ ]
    sort_down_bytes (suc k) zero m a turns inside bound =
        let none : 0 * size ≡ 0 = omega arith in
        sort_down_stops (suc k) a (0 * size) (ap (λ t. ltb 0 t && ltb t (2 ^ 31)) none)
    sort_down_bytes (suc k) (suc i) m a turns inside bound =
        let o = suc i * size in
        let small : o ≤ 2 ^ 30 = scaled size some_size (suc i) m (omega (arith, inside)) bound in
        let none : 0 * size ≡ 0 = omega arith in
        let next : suc i * size ≡ i * size + size = omega arith in
        let goes : (ltb 0 o && ltb o (2 ^ 31)) ≡ true = ground (arith, small, next, some_size) in
        let c = Elements.swap less d a 0 (suc i) in
        let b = Elements.sift less d (length a) c (suc i) 0 in
        let swapped : swap less d size a 0 o ≡ c =
          ap (λ t. swap less d size a t o) (sym none)
          ∙ swap_lem size some_size less d a 0 (suc i) in
        let sunk : sift less d size (length a) (swap less d size a 0 o) o 0 ≡ b =
          ap₂ (λ x t. sift less d size (length a) x o t) swapped (sym none)
          ∙ sift_bytes size some_size less d (length a) c (suc i) 0 (omega arith) small in
        ap
          (λ t.
            if t
            then sort_down less d size k (sift less d size (length a) (swap less d size a 0 o) o 0)
                (step_down size o)
            else a)
          goes
        ∙ ap₂ (sort_down less d size k) sunk (step_down-suc size some_size i small)
        ∙ sort_down_bytes k i m b (omega (arith, turns)) (omega (arith, inside)) bound

    first_lem :
        (m : ℕ)
        → 1 < m
        → m * size ≤ 2 ^ 30
        → to_int ((sub64 (m / 2) 1 * size) % u64_mod) ≡ (m / 2 - 1) * size
    first_lem m some bound =
        let half : sub64 (m / 2) 1 ≡ m / 2 - 1 =
          let times : 1 * m ≤ size * m = mul-le-mul_right m some_size in
          let few : m ≤ 2 ^ 30 = omega (arith, times, bound) in omega (arith, some, few) in
        let small = scaled size some_size (m / 2 - 1) m (omega (arith, some)) bound in
        ap (λ t. to_int ((t * size) % u64_mod)) half ∙ omega (arith, small)

    minus_lem : ((2 ^ 64 - 1) * size) % u64_mod ≡ u64_mod - size
    minus_lem = omega (arith, fits, some_size)

    -- the first loop from `num/2 - 1`, which is an int below 0 where there is nothing to compare
    heapify_all :
        (m : ℕ) (a : List A)
        → length a ≡ m
        → m * size ≤ 2 ^ 30
        → heapify less d size (suc m) a (m * size) (to_int ((sub64 (m / 2) 1 * size) % u64_mod))
          ≡ Elements.heapify less d (m / 2) a
    unfolding Elements.heapify
    heapify_all m a len bound = elim (dec_lt 1 m) [
      | yes some ↦
          let half : suc (m / 2 - 1) ≡ m / 2 = omega (arith, some) in
          ap (heapify less d size (suc m) a (m * size)) (first_lem m some bound)
          ∙ heapify_bytes (suc m) (m / 2 - 1) m a (omega arith) (omega (arith, some)) len bound
          ∙ ap (λ t. Elements.heapify less d t a) half
      | no few ↦
          let half : m / 2 ≡ 0 = omega (arith, few) in
          let below : ltb (to_int ((sub64 0 1 * size) % u64_mod)) (2 ^ 31) ≡ false =
            ground (arith, minus_lem, fits, some_size) in
          heapify_stops (suc m) a (m * size) (to_int ((sub64 (m / 2) 1 * size) % u64_mod))
            (ap (λ t. ltb (to_int ((sub64 t 1 * size) % u64_mod)) (2 ^ 31)) half ∙ below)
          ∙ sym (ap (λ t. Elements.heapify less d t a) half)
    ]

    sort_down_all :
        (m : ℕ) (a : List A)
        → m * size ≤ 2 ^ 30
        → sort_down less d size (suc m) a (step_down size (m * size))
          ≡ Elements.sort_down less d (m - 1) a
    unfolding Elements.sort_down
    sort_down_all zero a bound =
        let none : 0 * size ≡ 0 = omega arith in
        sort_down_stops 1 a (step_down size (0 * size)) (
          ap (λ t. ltb 0 (step_down size t) && ltb (step_down size t) (2 ^ 31)) none
          ∙ ap (λ t. ltb 0 (step_down size 0) && t) (step_down-zero size some_size fits)
          ∙ ground arith)
    sort_down_all (suc m) a bound =
        let less_one : suc m - 1 ≡ m = omega arith in
        ap (sort_down less d size (suc (suc m)) a) (step_down-suc size some_size m bound)
        ∙ sort_down_bytes (suc (suc m)) m (suc m) a (omega arith) (omega arith) bound
        ∙ sym (ap (λ t. Elements.sort_down less d t a) less_one)

    pub heap_sort_bytes :
        (a : List A)
        → length a * size ≤ 2 ^ 30
        → heap_sort less d size a ≡ Elements.heap_sort less d a
    unfolding heap_sort Elements.heap_sort
    heap_sort_bytes a bound =
        let m = length a in
        let i = to_int ((sub64 (m / 2) 1 * size) % u64_mod) in
        let n : to_int ((m * size) % u64_mod) ≡ m * size = omega (arith, bound) in
        ap
          (λ t.
            sort_down less d size (suc m) (heapify less d size (suc m) a t i) (step_down size t))
          n
        ∙ ap (λ t. sort_down less d size (suc m) t (step_down size (m * size)))
            (heapify_all m a refl bound)
        ∙ sort_down_all m (Elements.heapify less d (m / 2) a) bound
