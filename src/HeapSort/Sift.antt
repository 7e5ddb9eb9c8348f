-- ===== src/HeapSort/Sift.antt =====
-- The sinking of an element in src/algorithm/heap_sort.c: what it needs of the array, and what it makes of it.
use mathlib.Core.Path.{subst}
use skp.Common.{
  ℕ, zero, suc, ◌+◌, ◌-◌, ◌*◌, ◌/◌, ◌≤◌, ◌<◌, ◌≡◌, ◌≢◌, inl, inr, refl, sym, ap, ◌∙◌, Bool, true,
  false, ◌&&◌, Bool-cases, List, [], ◌∷◌, ◌==◌, ltb, if◌then◌else◌, get_or, set, get_or-set, length,
  length-set, arith, ℕ_discrete,
}
use skp.HeapSort.Elements.{swap, child}

-- An order in which of two elements one is not less than the other.
pub record IsOrder {ℓ} {A : Type ℓ} (less : A → A → Bool) : Type ℓ where
  pub asymmetric : (x y : A) → less x y ≡ true → less y x ≡ false
  pub transitive : (x y z : A) → less x y ≡ false → less y z ≡ false → less x z ≡ false

module _ {ℓ} {A : Type ℓ} (less : A → A → Bool) (d : A) where
  abbrev pub at : List A → ℕ → A
  at a i = get_or a i d

  -- the first element is not less than the second
  abbrev pub Covers : List A → ℕ → ℕ → Type 0
  Covers a i j = less (at a i) (at a j) ≡ false

  -- Of the first `n` elements each that has its parent at `l` or behind is not more than the parent.
  abbrev pub IsHeap : ℕ → ℕ → List A → Type 0
  IsHeap l n a = (c : ℕ) → 0 < c → c < n → l ≤ (c - 1) / 2 → Covers a ((c - 1) / 2) c

  -- The same but for the children of `r`, which are not more than the parent of `r`.
  pub record Sinking (l n r : ℕ) (a : List A) : Type ℓ where
    pub edges :
        (c : ℕ) → 0 < c → c < n → l ≤ (c - 1) / 2 → (c - 1) / 2 ≢ r → Covers a ((c - 1) / 2) c
    pub bridge :
        (c : ℕ)
        → 0 < c
        → c < n
        → (c - 1) / 2 ≡ r
        → 0 < r
        → l ≤ (r - 1) / 2
        → Covers a ((r - 1) / 2) c

  abbrev pub sum : (A → ℕ) → List A → ℕ
  sum w [] = 0
  sum w (x ∷ xs) = w x + sum w xs

  sum-set :
      (w : A → ℕ) (a : List A) (i : ℕ) (v : A)
      → i < length a
      → sum w (set a i v) + w (at a i) ≡ sum w a + w v
  sum-set w [] i v h = absurd (omega arith)
  sum-set w (x ∷ a) zero v h = omega arith
  sum-set w (x ∷ a) (suc i) v h = omega (arith, sum-set w a i v (omega (arith, h)))

  pub length-swap : (a : List A) (i j : ℕ) → length (swap less d a i j) ≡ length a
  length-swap a i j = length-set (set a i (at a j)) j (at a i) ∙ length-set a i (at a j)

  pub at-swap :
      (a : List A) (i j k : ℕ)
      → i < length a
      → j < length a
      → at (swap less d a i j) k ≡ (if j == k then at a i else if i == k then at a j else at a k)
  at-swap a i j k p q =
      get_or-set (set a i (at a j)) j k (at a i) d (omega (arith, length-set a i (at a j), q))
      ∙ ap (λ t. if j == k then at a i else t) (get_or-set a i k (at a j) d p)

  pub sum-swap :
      (w : A → ℕ) (a : List A) (i j : ℕ)
      → i ≢ j
      → i < length a
      → j < length a
      → sum w (swap less d a i j) ≡ sum w a
  sum-swap w a i j ne p q =
      let same : at (set a i (at a j)) j ≡ at a j =
        get_or-set a i j (at a j) d p ∙ ground (arith, ne) in
      omega (
        arith,
        sum-set w a i (at a j) p,
        sum-set w (set a i (at a j)) j (at a i) (omega (arith, length-set a i (at a j), q)),
        ap w same,
      )

  module _ (a : List A) (i j : ℕ) (p : i < length a) (q : j < length a) where
    pub at_first : i ≢ j → at (swap less d a i j) i ≡ at a j
    at_first ne = at-swap a i j i p q ∙ ground (arith, ne)

    pub at_second : at (swap less d a i j) j ≡ at a i
    at_second = at-swap a i j j p q ∙ ground arith

    pub at_other : (k : ℕ) → k ≢ i → k ≢ j → at (swap less d a i j) k ≡ at a k
    at_other k ni nj = at-swap a i j k p q ∙ ground (arith, ni, nj)

  -- What stays as it is when the first `n` elements change places.
  pub record Kept (n : ℕ) (a b : List A) : Type ℓ where
    pub same_length : length b ≡ length a
    pub sums : (w : A → ℕ) → sum w b ≡ sum w a
    pub behind : (j : ℕ) → n ≤ j → at b j ≡ at a j
    pub bounds :
        (y : A)
        → ((j : ℕ) → j < n → less y (at a j) ≡ false)
        → (j : ℕ) → j < n
        → less y (at b j) ≡ false

  pub Kept-refl : (n : ℕ) (a : List A) → Kept n a a
  Kept-refl n a = record {
    same_length = refl;
    sums = λ w. refl;
    behind = λ j h. refl;
    bounds = λ y h. h;
  }

  pub Kept-trans : (n : ℕ) (a b c : List A) → Kept n a b → Kept n b c → Kept n a c
  Kept-trans n a b c f g = record {
    same_length = g.same_length ∙ f.same_length;
    sums = λ w. g.sums w ∙ f.sums w;
    behind = λ j h. g.behind j h ∙ f.behind j h;
    bounds = λ y h. g.bounds y (f.bounds y h);
  }

  pub swap-Kept :
      (n : ℕ) (a : List A) (i j : ℕ)
      → i ≢ j
      → i < n
      → j < n
      → n ≤ length a
      → Kept n a (swap less d a i j)
  swap-Kept n a i j ne p q le =
      let pa : i < length a = omega (arith, p, le) in
      let qa : j < length a = omega (arith, q, le) in
      record {
        same_length = length-swap a i j;
        sums = λ w. sum-swap w a i j ne pa qa;
        behind = λ k h. at_other a i j pa qa k (omega (arith, h, p)) (omega (arith, h, q));
        bounds = λ y h k lt. elim (ℕ_discrete k j) [
          | yes e ↦
              ap (λ m. less y (at (swap less d a i j) m)) e
              ∙ ap (less y) (at_second a i j pa qa)
              ∙ h i p
          | no nj ↦ elim (ℕ_discrete k i) [
            | yes e ↦
                ap (λ m. less y (at (swap less d a i j) m)) e
                ∙ ap (less y) (at_first a i j pa qa ne)
                ∙ h j q
            | no ni ↦ ap (less y) (at_other a i j pa qa k ni nj) ∙ h k lt
          ]
        ];
      }

  module _ (o : IsOrder less) where
    pub irreflexive : (x : A) → less x x ≡ false
    irreflexive x = elim (Bool-cases (less x x)) [ inl e ↦ o.asymmetric x x e | inr e ↦ e ]

    -- A child that covers the other.
    abbrev pub Covering : List A → ℕ → ℕ → ℕ → Type 0
    Covering a n r m =
        (m < n)
        × ((m - 1) / 2 ≡ r)
        × (r < m)
        × ((c : ℕ) → 0 < c → c < n → (c - 1) / 2 ≡ r → Covers a m c)

    pub child-Covering :
        (a : List A) (n r : ℕ) → r * 2 + 1 < n → Covering a n r (child less d a n r)
    child-Covering a n r lt =
        let left = r * 2 + 1 in
        elim (Bool-cases (ltb left (n - 1) && less (at a left) (at a (left + 1)))) [
          | inl takes ↦
              let room : left + 1 < n = ground (arith, takes, lt) in
              let more : less (at a left) (at a (left + 1)) ≡ true = ground (arith, takes) in
              subst (Covering a n r) (sym (ap (λ b. if b then left + 1 else left) takes)) (
                room,
                omega arith,
                omega arith,
                λ c pos lt_n e. elim (ℕ_discrete c left) [
                  | yes here ↦
                      ap (λ m. less (at a (left + 1)) (at a m)) here
                      ∙ o.asymmetric (at a left) (at a (left + 1)) more
                  | no ne ↦
                      let here : c ≡ left + 1 = omega (arith, pos, e, ne) in
                      ap (λ m. less (at a (left + 1)) (at a m)) here ∙ irreflexive (at a (left + 1))
                ],
              )
          | inr stays ↦
              subst (Covering a n r) (sym (ap (λ b. if b then left + 1 else left) stays)) (
                lt,
                omega arith,
                omega arith,
                λ c pos lt_n e. elim (ℕ_discrete c left) [
                  | yes here ↦ ap (λ m. less (at a left) (at a m)) here ∙ irreflexive (at a left)
                  | no ne ↦
                      let here : c ≡ left + 1 = omega (arith, pos, e, ne) in
                      ap (λ m. less (at a left) (at a m)) here ∙ ground (arith, stays, here, lt_n)
                ],
              )
        ]
