-- ===== src/HeapSort/Sink.antt =====
-- The sinking loop of src/algorithm/heap_sort.c ends with a heap.
use mathlib.Core.Path.{subst, ap₂}
use skp.Common.{
  ℕ, zero, suc, ◌+◌, ◌-◌, ◌*◌, ◌/◌, ◌≤◌, ◌<◌, ◌≡◌, ◌≢◌, inl, inr, sym, ap, ◌∙◌, Bool, true, false,
  Bool-cases, List, ltb, if◌then◌else◌, length, arith, ℕ_discrete, dec_lt,
}
use skp.HeapSort.Elements.{swap, child, sift}
use skp.HeapSort.Sift.{
  IsOrder, at, Covers, IsHeap, Sinking, at_first, at_second, at_other, Kept, Kept-refl, Kept-trans,
  swap-Kept, length-swap, Covering, child-Covering,
}

module _ {ℓ} {A : Type ℓ} (less : A → A → Bool) (d : A) (o : IsOrder less) (l n : ℕ) where
  -- An element that is less than its greatest child changes places with it and sinks on from there.
  module _ (a : List A) (r c : ℕ) (s : Sinking less d l n r a) (up : l ≤ r) (le : n ≤ length a)
      (covering : Covering less d o a n r c)
      (more : less (at less d a r) (at less d a c) ≡ true) where
    abbrev b : List A
    b = swap less d a r c

    in_r : r < length a
    in_r = omega (arith, covering, le)

    in_c : c < length a
    in_c = omega (arith, covering, le)

    apart : r ≢ c
    apart e = absurd (omega (arith, covering, e))

    now_r : at less d b r ≡ at less d a c
    now_r = at_first less d a r c in_r in_c apart

    now_c : at less d b c ≡ at less d a r
    now_c = at_second less d a r c in_r in_c

    now : (k : ℕ) → k ≢ r → k ≢ c → at less d b k ≡ at less d a k
    now k = at_other less d a r c in_r in_c k

    swapped_edges :
        (x : ℕ)
        → 0 < x
        → x < n
        → l ≤ (x - 1) / 2
        → (x - 1) / 2 ≢ c
        → Covers less d b ((x - 1) / 2) x
    swapped_edges x pos lt lo ne = elim (ℕ_discrete ((x - 1) / 2) r) [
      | yes parent ↦ elim (ℕ_discrete x c) [
        | yes here ↦
            ap₂ less (ap (at less d b) parent ∙ now_r) (ap (at less d b) here ∙ now_c)
            ∙ o.asymmetric (at less d a r) (at less d a c) more
        | no other ↦
            ap₂ less (ap (at less d b) parent ∙ now_r) (now x (omega (arith, parent, pos)) other)
            ∙ covering.3 x pos lt parent
      ]
      | no away ↦ elim (ℕ_discrete x r) [
        | yes here ↦
            let root : 0 < r = omega (arith, pos, here) in
            let same : (x - 1) / 2 ≡ (r - 1) / 2 = ap (λ k. (k - 1) / 2) here in
            ap₂ less (now ((x - 1) / 2) away ne) (ap (at less d b) here ∙ now_r)
            ∙ ap (λ k. less (at less d a k) (at less d a c)) same
            ∙ s.bridge c (omega (arith, covering)) covering.0 covering.1 root
                (omega (arith, lo, same))
        | no other ↦ elim (ℕ_discrete x c) [
          | yes child_c ↦ absurd (away (ap (λ k. (k - 1) / 2) child_c ∙ covering.1))
          | no neither ↦
              ap₂ less (now ((x - 1) / 2) away ne) (now x other neither) ∙ s.edges x pos lt lo away
        ]
      ]
    ]

    swapped_bridge :
        (x : ℕ)
        → 0 < x
        → x < n
        → (x - 1) / 2 ≡ c
        → 0 < c
        → l ≤ (c - 1) / 2
        → Covers less d b ((c - 1) / 2) x
    swapped_bridge x pos lt parent root lo =
        let below : x ≢ c = λ e. absurd (omega (arith, parent, pos, e)) in
        let not_r : x ≢ r = λ e. absurd (omega (arith, parent, pos, e, covering)) in
        let edge : Covers less d a ((x - 1) / 2) x =
          s.edges x pos lt (omega (arith, parent, up, covering)) (λ e. apart (sym e ∙ parent)) in
        ap₂ less (ap (at less d b) covering.1 ∙ now_r) (now x not_r below)
        ∙ ap (λ k. less (at less d a k) (at less d a x)) (sym parent)
        ∙ edge

    swapped-Sinking : Sinking less d l n c b
    swapped-Sinking = record { edges = swapped_edges; bridge = swapped_bridge }

  -- the loop ends where the element covers its greatest child, or has none
  ends :
      (a : List A) (r c : ℕ)
      → Sinking less d l n r a
      → Covering less d o a n r c
      → Covers less d a r c
      → IsHeap less d l n a
  ends a r c s covering enough x pos lt lo = elim (ℕ_discrete ((x - 1) / 2) r) [
    | yes parent ↦
        ap (λ k. less (at less d a k) (at less d a x)) parent
        ∙ o.transitive (at less d a r) (at less d a c) (at less d a x) enough
            (covering.3 x pos lt parent)
    | no away ↦ s.edges x pos lt lo away
  ]

  leaf : (a : List A) (r : ℕ) → Sinking less d l n r a → n ≤ r * 2 + 1 → IsHeap less d l n a
  leaf a r s none_below x pos lt lo =
      s.edges x pos lt lo (λ e. absurd (omega (arith, e, pos, lt, none_below)))

  abbrev pub Sifted : List A → List A → Type ℓ
  Sifted a b = IsHeap less d l n b × Kept less d n a b

  -- With a turn for each element from `r` on, the loop makes a heap of the elements that it moves.
  pub sift-Sifted :
      (k : ℕ) (a : List A) (r : ℕ)
      → Sinking less d l n r a
      → l ≤ r
      → n ≤ length a
      → n ≤ r + k
      → Sifted a (sift less d k a n r)
  unfolding sift
  sift-Sifted zero a r s up le enough = (leaf a r s (omega (arith, enough)), Kept-refl less d n a)
  sift-Sifted (suc k) a r s up le enough =
      let c = child less d a n r in
      let sunk = sift less d k (swap less d a r c) n c in
      let turn : Bool → Bool → List A = λ has more. if has then if more then sunk else a else a in
      elim (dec_lt (r * 2 + 1) n) [
        | no bottom ↦
            let none_below : ltb (r * 2 + 1) n ≡ false = ground (arith, bottom) in
            subst (Sifted a)
              (sym (ap (λ has. turn has (less (at less d a r) (at less d a c))) none_below))
              (leaf a r s (omega (arith, bottom)), Kept-refl less d n a)
        | yes lt ↦
            let some_below : ltb (r * 2 + 1) n ≡ true = ground (arith, lt) in
            let covering = child-Covering less d o a n r lt in
            elim (Bool-cases (less (at less d a r) (at less d a c))) [
              | inr stays ↦
                  subst (Sifted a) (sym (ap₂ turn some_below stays))
                    (ends a r c s covering stays, Kept-refl less d n a)
              | inl more ↦
                  let (heap, kept) =
                    sift-Sifted k (swap less d a r c) c
                      (swapped-Sinking a r c s up le covering more) (omega (arith, up, covering))
                      (omega (arith, le, length-swap less d a r c))
                      (omega (arith, enough, covering)) in
                  let first =
                    swap-Kept less d n a r c (apart a r c s up le covering more)
                      (omega (arith, covering)) covering.0 le in
                  subst (Sifted a) (sym (ap₂ turn some_below more))
                    (heap, Kept-trans less d n a (swap less d a r c) sunk first kept)
            ]
      ]
