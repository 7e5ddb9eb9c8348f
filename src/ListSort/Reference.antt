-- ===== src/ListSort/Reference.antt =====
-- The insertion sort that src/algorithm/list_sort.c is compared with: it sorts, and keeps the order
-- of equal nodes.
use mathlib.Core.List.{
  Perm, Pairwise, Mem, Pairwise-cons, Pairwise-singleton, eq-or-mem_of_mem-cons,
}
use mathlib.Core.List.Perm
use mathlib.Core.Bool.{Bool-set}
use mathlib.Core.Logic.Or
use skp.Common.{
  ◌≡◌, refl, ap, ◌∙◌, Bool, true, false, ◌&&◌, Bool-cases, inl, inr, List, [], ◌∷◌, arith,
  if◌then◌else◌,
}
use skp.Common.Int.{ℤ}
use skp.ListSort.{takes}
use skp.ListSort.Order.{Comparison, insert, insertion_sort, insert-before, insert-after}

module _ {ℓ} {A : Type ℓ} where
  abbrev pub select : (A → Bool) → List A → List A
  select p [] = []
  select p (x ∷ xs) = if p x then x ∷ select p xs else select p xs

module _ {ℓ} {A : Type ℓ} (cmp : A → A → ℤ) where
  -- neither goes before the other
  abbrev pub equal : A → A → Bool
  equal x y = takes cmp x y && takes cmp y x

  abbrev pub IsSorted : List A → Type ℓ
  IsSorted = Pairwise (λ a b. takes cmp a b ≡ true)

  pub insert-perm : (x : A) (ys : List A) → Perm (insert cmp x ys) (x ∷ ys)
  unfolding insert
  insert-perm x [] = Perm.rfl
  insert-perm x (y ∷ ys) = elim (Bool-cases (takes cmp x y)) [
    | inl h ↦ rw (insert-before cmp x y ys h) Perm.rfl
    | inr h ↦
        rw (insert-after cmp x y ys h)
          (Perm.trans (Perm.cons y (insert-perm x ys)) (Perm.swap x y ys))
  ]

  pub insertion_sort-perm : (xs : List A) → Perm (insertion_sort cmp xs) xs
  unfolding insertion_sort
  insertion_sort-perm [] = Perm.rfl
  insertion_sort-perm (x ∷ xs) =
      Perm.trans (insert-perm x (insertion_sort cmp xs)) (Perm.cons x (insertion_sort-perm xs))

  IsBelow-cons :
      (a : A) {y : A} {ys : List A}
      → takes cmp a y ≡ true
      → ((b : A) → Mem b ys → takes cmp a b ≡ true)
      → (b : A) → Mem b (y ∷ ys)
      → takes cmp a b ≡ true
  IsBelow-cons a h below b m =
      Or.elim (Bool-set _ _) (eq-or-mem_of_mem-cons m) (λ e. ap (takes cmp a) e ∙ h) (below b)

module _ {ℓ} {A : Type ℓ} {cmp : A → A → ℤ} (o : Comparison cmp) where
  insert-IsSorted : (x : A) (ys : List A) → IsSorted cmp ys → IsSorted cmp (insert cmp x ys)
  unfolding insert
  insert-IsSorted x [] s = Pairwise-singleton _ x
  insert-IsSorted x (y ∷ ys) s =
      let (below, rest) = Pairwise-cons.0 s in
      elim (Bool-cases (takes cmp x y)) [
        | inl h ↦
            rw (insert-before cmp x y ys h)
              (Pairwise.cons (IsBelow-cons cmp x h (λ a m. o.trans x y a h (below a m))) s)
        | inr h ↦ rw (insert-after cmp x y ys h) (
            Pairwise.cons
              (λ a m.
                IsBelow-cons cmp y (o.total x y h) below a
                  ((Perm.mem_iff (insert-perm cmp x ys)).0 m))
              (insert-IsSorted x ys rest))
      ]

  pub insertion_sort-IsSorted : (xs : List A) → IsSorted cmp (insertion_sort cmp xs)
  unfolding insertion_sort
  insertion_sort-IsSorted [] = Pairwise.nil
  insertion_sort-IsSorted (x ∷ xs) =
      insert-IsSorted x (insertion_sort cmp xs) (insertion_sort-IsSorted xs)

  -- a node that comes later is not equal to one that it passes
  insert-select :
      (z x : A) (ys : List A)
      → select (equal cmp z) (insert cmp x ys) ≡ select (equal cmp z) (x ∷ ys)
  unfolding insert
  insert-select z x [] = refl
  insert-select z x (y ∷ ys) = elim (Bool-cases (takes cmp x y)) [
    | inl h ↦ rw (insert-before cmp x y ys h) refl
    | inr h ↦
        ap (select (equal cmp z)) (insert-after cmp x y ys h)
        ∙ passes y x ys h (insert-select z x ys)
  ]
    where
      apart : (x y : A) → takes cmp x y ≡ false → equal cmp z x ≡ true → equal cmp z y ≡ true → ⊥
      apart x y h zx zy =
          let yes : takes cmp x y ≡ true =
            o.trans x z y (ground (arith, zx)) (ground (arith, zy)) in
          cc

      passes :
          (y x : A) (ys : List A)
          → takes cmp x y ≡ false
          → select (equal cmp z) (insert cmp x ys) ≡ select (equal cmp z) (x ∷ ys)
          → select (equal cmp z) (y ∷ insert cmp x ys) ≡ select (equal cmp z) (x ∷ y ∷ ys)
      passes y x ys h e = elim (Bool-cases (equal cmp z x)) [
        | inl zx ↦ elim (Bool-cases (equal cmp z y)) [
          | inl zy ↦ absurd (apart x y h zx zy)
          | inr zy ↦ ground (arith, e)
        ]
        | inr zx ↦ ground (arith, e)
      ]

  pub insertion_sort-stable :
      (z : A) (xs : List A) → select (equal cmp z) (insertion_sort cmp xs) ≡ select (equal cmp z) xs
  unfolding insertion_sort
  insertion_sort-stable z [] = refl
  insertion_sort-stable z (x ∷ xs) =
      insert-select z x (insertion_sort cmp xs)
      ∙ ap (λ t. if equal cmp z x then x ∷ t else t) (insertion_sort-stable z xs)
