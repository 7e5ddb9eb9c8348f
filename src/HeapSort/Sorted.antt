-- ===== src/HeapSort/Sorted.antt =====
-- The sort of src/algorithm/heap_sort.c on elements.
use mathlib.Core.Path.{subst, ap₂}
use skp.Common.{
  ℕ, zero, suc, ◌-◌, ◌/◌, ◌≤◌, ◌<◌, ◌≡◌, refl, sym, ap, ◌∙◌, Bool, false, List, length, arith,
  ℕ_discrete,
}
use skp.HeapSort.Elements.{swap, sift, heapify, sort_down, heap_sort}
use skp.HeapSort.Sift.{
  IsOrder, at, Covers, IsHeap, sum, at_second, at_other, Kept, swap-Kept, irreflexive, length-swap,
}
use skp.HeapSort.Sink.{Sifted, sift-Sifted}

module _ {ℓ} {A : Type ℓ} (less : A → A → Bool) (d : A) where
  -- the same elements, each as often: any weights of them have the same sum
  pub record Rearranged (a b : List A) : Type ℓ where
    pub same_length : length b ≡ length a
    pub sums : (w : A → ℕ) → sum less d w b ≡ sum less d w a

  -- no element is less than one before it
  abbrev pub IsSorted : List A → Type 0
  IsSorted a = (j k : ℕ) → j ≤ k → k < length a → Covers less d a k j

module _ {ℓ} {A : Type ℓ} (less : A → A → Bool) (d : A) (o : IsOrder less) where
  after :
      (n : ℕ) (a b c : List A) → Kept less d n a b → Rearranged less d b c → Rearranged less d a c
  after n a b c f g = record {
    same_length = g.same_length ∙ f.same_length;
    sums = λ w. g.sums w ∙ f.sums w;
  }

  heapify_lem :
      (i : ℕ) (a : List A)
      → IsHeap less d i (length a) a
      → IsHeap less d 0 (length (heapify less d i a)) (heapify less d i a)
        × Rearranged less d a (heapify less d i a)
  unfolding heapify
  heapify_lem zero a h = (h, record { same_length = refl; sums = λ w. refl })
  heapify_lem (suc i) a h =
      let b = sift less d (length a) a (length a) i in
      let (heap, kept) =
        sift-Sifted less d o i (length a) (length a) a i
          (record {
            edges = λ c pos lt lo ne. h c pos lt (omega (arith, lo, ne));
            bridge = λ c pos lt parent root lo. absurd (omega (arith, root, lo));
          })
          (omega arith) (omega arith) (omega arith) in
      let (whole, same) =
        heapify_lem i b (subst (λ n. IsHeap less d i n b) (sym kept.same_length) heap) in
      (whole, after (length a) a b (heapify less d i b) kept same)

  root_max : (n j m : ℕ) (a : List A) → IsHeap less d 0 n a → j < n → j ≤ m → Covers less d a 0 j
  root_max n zero m a h lt le = irreflexive less d o (at less d a 0)
  root_max n (suc j) zero a h lt le = absurd (omega (arith, le))
  root_max n (suc j) (suc m) a h lt le =
      let parent = (suc j - 1) / 2 in
      o.transitive (at less d a 0) (at less d a parent) (at less d a (suc j))
        (root_max n parent m a h (omega (arith, lt)) (omega (arith, le)))
        (h (suc j) (omega arith) lt (omega arith))

  -- a heap of the first `m` elements, and behind it the others in order, none less than one of the heap
  record Ready (m : ℕ) (a : List A) : Type ℓ where
    within : m ≤ length a
    heap : IsHeap less d 0 m a
    low : (k : ℕ) → m ≤ k → k < length a → (j : ℕ) → j < m → Covers less d a k j
    tail : (j k : ℕ) → m ≤ j → j ≤ k → k < length a → Covers less d a k j

  module _ (n : ℕ) (a : List A) (r : Ready (suc n) a) (some_left : 0 < n) where
    abbrev b : List A
    b = swap less d a 0 n

    abbrev c : List A
    c = sift less d (length a) b n 0

    swapped : Kept less d (suc n) a b
    swapped =
        swap-Kept less d (suc n) a 0 n (omega (arith, some_left)) (omega arith) (omega arith)
          r.within

    first_in : 0 < length a
    first_in = omega (arith, r.within)

    last_in : n < length a
    last_in = omega (arith, r.within)

    other : (k : ℕ) → 0 < k → k < n → at less d b k ≡ at less d a k
    other k pos lt =
        at_other less d a 0 n first_in last_in k (omega (arith, pos)) (omega (arith, lt))

    sunk : Sifted less d o 0 n b c
    sunk =
        sift-Sifted less d o 0 n (length a) b 0
          (record {
            edges = λ x pos lt lo ne.
                ap₂ less (other ((x - 1) / 2) (omega (arith, ne)) (omega (arith, lt, pos)))
                  (other x pos lt)
                ∙ r.heap x pos (omega (arith, lt)) lo;
            bridge = λ x pos lt parent root lo. absurd (omega (arith, root));
          })
          (omega arith) (omega (arith, r.within, length-swap less d a 0 n)) (omega arith)

    moved : at less d c n ≡ at less d a 0
    moved = sunk.1.behind n (omega arith) ∙ at_second less d a 0 n first_in last_in

    behind : (k : ℕ) → n < k → at less d c k ≡ at less d a k
    behind k lt = sunk.1.behind k (omega (arith, lt)) ∙ swapped.behind k lt

    bounded :
        (y : A)
        → ((j : ℕ) → j < suc n → less y (at less d a j) ≡ false)
        → (j : ℕ) → j < n
        → less y (at less d c j) ≡ false
    bounded y h = sunk.1.bounds y (λ j lt. swapped.bounds y h j (omega (arith, lt)))

    same_length : length c ≡ length a
    same_length = sunk.1.same_length ∙ swapped.same_length

    largest : (j : ℕ) → j < suc n → Covers less d a 0 j
    largest j lt = root_max (suc n) j j a r.heap lt (omega arith)

    next_Ready : Ready n c
    next_Ready = record {
      within = omega (arith, r.within, same_length);
      heap = sunk.0;
      low = λ k from lt j below. elim (ℕ_discrete k n) [
        | yes e ↦
            ap (λ i. less (at less d c i) (at less d c j)) e
            ∙ ap (λ y. less y (at less d c j)) moved
            ∙ bounded (at less d a 0) largest j below
        | no ne ↦
            ap (λ y. less y (at less d c j)) (behind k (omega (arith, from, ne)))
            ∙ bounded (at less d a k)
                (r.low k (omega (arith, from, ne)) (omega (arith, lt, same_length))) j below
      ];
      tail = λ j k from le lt. elim (ℕ_discrete j n) [
        | yes e ↦ elim (ℕ_discrete k n) [
          | yes here ↦
              ap₂ less (ap (at less d c) here) (ap (at less d c) e)
              ∙ irreflexive less d o (at less d c n)
          | no ne ↦
              let later : n < k = omega (arith, from, le, ne) in
              ap₂ less (behind k later) (ap (at less d c) e ∙ moved)
              ∙ r.low k later (omega (arith, lt, same_length)) 0 (omega arith)
        ]
        | no ne ↦
            let later : n < j = omega (arith, from, ne) in
            ap₂ less (behind k (omega (arith, later, le))) (behind j later)
            ∙ r.tail j k later le (omega (arith, lt, same_length))
      ];
    }

    both : Rearranged less d a c
    both = record { same_length = same_length; sums = λ w. sunk.1.sums w ∙ swapped.sums w }

  sort_down_lem :
      (i : ℕ) (a : List A)
      → Ready (suc i) a
      → IsSorted less d (sort_down less d i a) × Rearranged less d a (sort_down less d i a)
  unfolding sort_down
  sort_down_lem zero a r = (
    λ j k le lt. elim (ℕ_discrete j 0) [
      | no ne ↦ r.tail j k (omega (arith, ne)) le lt
      | yes e ↦ elim (ℕ_discrete k 0) [
        | yes here ↦
            ap₂ less (ap (at less d a) here) (ap (at less d a) e)
            ∙ irreflexive less d o (at less d a 0)
        | no ne ↦
            ap (λ i. less (at less d a k) (at less d a i)) e
            ∙ r.low k (omega (arith, ne)) lt 0 (omega arith)
      ]
    ],
    record { same_length = refl; sums = λ w. refl },
  )
  sort_down_lem (suc i) a r =
      let next = c (suc i) a r (omega arith) in
      let (sorted, same) = sort_down_lem i next (next_Ready (suc i) a r (omega arith)) in
      let first = both (suc i) a r (omega arith) in
      (
        sorted,
        record {
          same_length = same.same_length ∙ first.same_length;
          sums = λ w. same.sums w ∙ first.sums w;
        },
      )

-- The sort on elements, of arrays of any length.
pub sorts_elements {ℓ} :
    {A : Type ℓ} (less : A → A → Bool) (d : A) (a : List A)
    → (o : IsOrder less)
    → IsSorted less d (heap_sort less d a) × Rearranged less d a (heap_sort less d a)
unfolding heap_sort sort_down
sorts_elements less d a o =
    let b = heapify less d (length a / 2) a in
    let (heap, same) =
      heapify_lem less d o (length a / 2) a (λ c pos lt lo. absurd (omega (arith, pos, lt, lo))) in
    let number : length b ≡ length a = same.same_length in
    elim (ℕ_discrete (length a) 0) [
      | yes empty ↦
          let none_left : length a - 1 ≡ 0 = omega (arith, empty) in
          let done : sort_down less d (length a - 1) b ≡ b =
            ap (λ n. sort_down less d n b) none_left in
          subst (λ c. IsSorted less d c × Rearranged less d a c) (sym done)
            (λ j k le lt. absurd (omega (arith, lt, number, empty)), same)
      | no some_element ↦
          let all : suc (length a - 1) ≡ length b = omega (arith, some_element, number) in
          let (sorted, kept) = sort_down_lem less d o (length a - 1) b (record {
            within = omega (arith, all);
            heap = subst (λ n. IsHeap less d 0 n b) (sym all) heap;
            low = λ k from lt j below. absurd (omega (arith, from, lt, all));
            tail = λ j k from le lt. absurd (omega (arith, from, le, lt, all));
          }) in
          (
            sorted,
            record {
              same_length = kept.same_length ∙ number;
              sums = λ w. kept.sums w ∙ same.sums w;
            },
          )
    ]
