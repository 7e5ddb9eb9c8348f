-- ===== src/ListSort/Order.antt =====
-- What src/algorithm/list_sort.c asks of the caller's comparison, and how `merge` then behaves: as
-- inserting the nodes of its first list, last one first, each before its equals.
use skp.Common.{◌≡◌, refl, sym, ap, ◌∙◌, true, false, Bool-cases, inl, inr, List, [], ◌∷◌}
use skp.Common.Int.{ℤ}
use skp.ListSort.{takes, merge}

-- A total preorder, as include/skp/algorithm/list_sort.h has it.
pub record Comparison {ℓ} {A : Type ℓ} (cmp : A → A → ℤ) : Type ℓ where
  pub total : (a b : A) → takes cmp a b ≡ false → takes cmp b a ≡ true
  pub trans : (a b c : A) → takes cmp a b ≡ true → takes cmp b c ≡ true → takes cmp a c ≡ true

module _ {ℓ} {A : Type ℓ} (cmp : A → A → ℤ) where
  unfoldable pub insert : A → List A → List A
  insert x [] = x ∷ []
  insert x (y ∷ ys) = elim (takes cmp x y) [ true ↦ x ∷ y ∷ ys | false ↦ y ∷ insert x ys ]

  -- the sort that the result is compared with
  unfoldable pub insertion_sort : List A → List A
  insertion_sort [] = []
  insertion_sort (x ∷ xs) = insert x (insertion_sort xs)

module _ {ℓ} {A : Type ℓ} (cmp : A → A → ℤ) where
  pub insert-before :
      (x y : A) (ys : List A) → takes cmp x y ≡ true → insert cmp x (y ∷ ys) ≡ x ∷ y ∷ ys
  unfolding insert
  insert-before x y ys h = rw (h, insert) refl

  pub insert-after :
      (x y : A) (ys : List A) → takes cmp x y ≡ false → insert cmp x (y ∷ ys) ≡ y ∷ insert cmp x ys
  unfolding insert
  insert-after x y ys h = rw (h, insert) refl

  pub merge_left :
      (x y : A) (a b : List A)
      → takes cmp x y ≡ true
      → merge cmp (x ∷ a) (y ∷ b) ≡ x ∷ merge cmp a (y ∷ b)
  unfolding merge
  merge_left x y a b h = rw (h, merge) refl

  pub merge_right :
      (x y : A) (a b : List A)
      → takes cmp x y ≡ false
      → merge cmp (x ∷ a) (y ∷ b) ≡ y ∷ merge cmp (x ∷ a) b
  unfolding merge
  merge_right x y a b h = rw (h, merge) refl

  pub merge_nil : (a : List A) → merge cmp a [] ≡ a
  unfolding merge
  merge_nil [] = refl
  merge_nil (x ∷ a) = refl

  pub nil_merge : (b : List A) → merge cmp [] b ≡ b
  unfolding merge
  nil_merge b = refl

  pub merge_one : (x : A) (b : List A) → merge cmp (x ∷ []) b ≡ insert cmp x b
  unfolding merge insert
  merge_one x [] = refl
  merge_one x (y ∷ b) = elim (Bool-cases (takes cmp x y)) [
    | inl h ↦ merge_left x y [] b h ∙ ap (◌∷◌ x) (nil_merge (y ∷ b)) ∙ sym (insert-before x y b h)
    | inr h ↦ merge_right x y [] b h ∙ ap (◌∷◌ y) (merge_one x b) ∙ sym (insert-after x y b h)
  ]

module _ {ℓ} {A : Type ℓ} {cmp : A → A → ℤ} (o : Comparison cmp) where
  below : (a b c : A) → takes cmp a b ≡ true → takes cmp a c ≡ false → takes cmp b c ≡ false
  below a b c h n = elim (Bool-cases (takes cmp b c)) [
    | inl k ↦ absurd (cc (o.trans a b c h k))
    | inr k ↦ k
  ]

  above : (a b c : A) → takes cmp a b ≡ false → takes cmp b c ≡ false → takes cmp a c ≡ false
  above a b c h n = elim (Bool-cases (takes cmp a c)) [
    | inl k ↦ absurd (cc (o.trans b a c (o.total a b h) k))
    | inr k ↦ k
  ]

  -- The nodes of three lists are taken in one order, whichever two are merged first.
  pub merge_assoc : (a b c : List A) → merge cmp (merge cmp a b) c ≡ merge cmp a (merge cmp b c)
  merge_assoc [] b c = rw (nil_merge cmp b, nil_merge cmp (merge cmp b c)) refl
  merge_assoc (x ∷ a) [] c = rw (merge_nil cmp (x ∷ a), nil_merge cmp c) refl
  merge_assoc (x ∷ a) (y ∷ b) [] =
      rw (merge_nil cmp (merge cmp (x ∷ a) (y ∷ b)), merge_nil cmp (y ∷ b)) refl
  merge_assoc (x ∷ a) (y ∷ b) (z ∷ c) = elim (Bool-cases (takes cmp x y)) [
    | inl xy ↦ elim (Bool-cases (takes cmp y z)) [
      | inl yz ↦
          ap (λ t. merge cmp t (z ∷ c)) (merge_left cmp x y a b xy)
          ∙ merge_left cmp x z (merge cmp a (y ∷ b)) c (o.trans x y z xy yz)
          ∙ ap (◌∷◌ x)
              (merge_assoc a (y ∷ b) (z ∷ c) ∙ ap (merge cmp a) (merge_left cmp y z b c yz))
          ∙ sym (merge_left cmp x y a (merge cmp b (z ∷ c)) xy)
          ∙ sym (ap (merge cmp (x ∷ a)) (merge_left cmp y z b c yz))
      | inr yz ↦ elim (Bool-cases (takes cmp x z)) [
        | inl xz ↦
            ap (λ t. merge cmp t (z ∷ c)) (merge_left cmp x y a b xy)
            ∙ merge_left cmp x z (merge cmp a (y ∷ b)) c xz
            ∙ ap (◌∷◌ x)
                (merge_assoc a (y ∷ b) (z ∷ c) ∙ ap (merge cmp a) (merge_right cmp y z b c yz))
            ∙ sym (merge_left cmp x z a (merge cmp (y ∷ b) c) xz)
            ∙ sym (ap (merge cmp (x ∷ a)) (merge_right cmp y z b c yz))
        | inr xz ↦
            ap (λ t. merge cmp t (z ∷ c)) (merge_left cmp x y a b xy)
            ∙ merge_right cmp x z (merge cmp a (y ∷ b)) c xz
            ∙ ap (◌∷◌ z) (
                ap (λ t. merge cmp t c) (sym (merge_left cmp x y a b xy))
                ∙ merge_assoc (x ∷ a) (y ∷ b) c)
            ∙ sym (merge_right cmp x z a (merge cmp (y ∷ b) c) xz)
            ∙ sym (ap (merge cmp (x ∷ a)) (merge_right cmp y z b c yz))
      ]
    ]
    | inr xy ↦ elim (Bool-cases (takes cmp y z)) [
      | inl yz ↦
          ap (λ t. merge cmp t (z ∷ c)) (merge_right cmp x y a b xy)
          ∙ merge_left cmp y z (merge cmp (x ∷ a) b) c yz
          ∙ ap (◌∷◌ y) (merge_assoc (x ∷ a) b (z ∷ c))
          ∙ sym (merge_right cmp x y a (merge cmp b (z ∷ c)) xy)
          ∙ sym (ap (merge cmp (x ∷ a)) (merge_left cmp y z b c yz))
      | inr yz ↦
          ap (λ t. merge cmp t (z ∷ c)) (merge_right cmp x y a b xy)
          ∙ merge_right cmp y z (merge cmp (x ∷ a) b) c yz
          ∙ ap (◌∷◌ z) (
              ap (λ t. merge cmp t c) (sym (merge_right cmp x y a b xy))
              ∙ merge_assoc (x ∷ a) (y ∷ b) c)
          ∙ sym (merge_right cmp x z a (merge cmp (y ∷ b) c) (above x y z xy yz))
          ∙ sym (ap (merge cmp (x ∷ a)) (merge_right cmp y z b c yz))
    ]
  ]
