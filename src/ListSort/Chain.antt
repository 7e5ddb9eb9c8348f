-- ===== src/ListSort/Chain.antt =====
-- `merge_and_restore_back_links` of src/algorithm/list_sort.c: the order of `merge`, and `prev`
-- links that lead back along it.
use skp.Common.{
  ◌≡◌, ◌≢◌, refl, sym, ap, ◌∙◌, Bool-cases, inl, inr, Option, none, some, List, [], ◌∷◌, ◌++◌, map,
}
use skp.Common.Int.{ℤ}
use skp.ListSort.{Linked, takes, merge, restore, merge_linked, merge_and_restore_back_links}
use skp.ListSort.Order.{merge_left, merge_right}

module _ {ℓ} {A : Type ℓ} where
  -- the nodes in the order of their `next` links
  abbrev pub forward : Linked A → List A
  forward l = map (λ n. n.0) l.nodes

  -- Every `prev` points at the node before, the first one's at the head and the head's at the last.
  abbrev pub LinksBack : Linked A → Type ℓ
  LinksBack l = map (λ n. n.1) l.nodes ++ (l.last ∷ []) ≡ none ∷ map some (forward l)

module _ {ℓ} {A : Type ℓ} (cmp : A → A → ℤ) where
  restore-forward : (tail : Option A) (a : List A) → map (λ n. n.0) (restore cmp tail a).0 ≡ a
  unfolding restore
  restore-forward tail [] = refl
  restore-forward tail (x ∷ a) = ap (◌∷◌ x) (restore-forward (some x) a)

  restore-back :
      (tail : Option A) (a : List A)
      → map (λ n. n.1) (restore cmp tail a).0 ++ ((restore cmp tail a).1 ∷ []) ≡ tail ∷ map some a
  unfolding restore
  restore-back tail [] = refl
  restore-back tail (x ∷ a) = ap (◌∷◌ tail) (restore-back (some x) a)

  merge_linked-restore :
      (tail : Option A) (a b : List A)
      → merge_linked cmp tail a b ≡ restore cmp tail (merge cmp a b)
  unfolding merge_linked restore merge
  merge_linked-restore tail [] b = refl
  merge_linked-restore tail (x ∷ a) [] = refl
  merge_linked-restore tail (x ∷ a) (y ∷ b) = elim (Bool-cases (takes cmp x y)) [
    | inl h ↦
        rw (h, merge_linked)
          (ap (λ w. ((x, tail) ∷ w.0, w.1)) (merge_linked-restore (some x) a (y ∷ b)))
        ∙ ap (restore cmp tail) (sym (merge_left cmp x y a b h))
    | inr h ↦
        rw (h, merge_linked)
          (ap (λ w. ((y, tail) ∷ w.0, w.1)) (merge_linked-restore (some y) (x ∷ a) b))
        ∙ ap (restore cmp tail) (sym (merge_right cmp x y a b h))
  ]

  chain : List A → Linked A
  chain a = let (nodes, last) = restore cmp none a in record { nodes = nodes; last = last }

  -- The final merge of two lists, the first not empty.
  pub merge_and_restore_back_links-merge :
      (a b : List A)
      → a ≢ []
      → (out : Linked A) × (merge_and_restore_back_links cmp a b ≡ some out)
        × (forward out ≡ merge cmp a b)
        × LinksBack out
  unfolding merge_and_restore_back_links chain
  merge_and_restore_back_links-merge [] b some_a = absurd (some_a refl)
  merge_and_restore_back_links-merge (x ∷ a) b some_a = (
    chain (merge cmp (x ∷ a) b),
    ap (λ w. some (record { nodes = w.0; last = w.1 })) (merge_linked-restore none (x ∷ a) b),
    restore-forward none (merge cmp (x ∷ a) b),
    restore-back none (merge cmp (x ∷ a) b)
        ∙ ap (λ t. none ∷ map some t) (sym (restore-forward none (merge cmp (x ∷ a) b))),
  )
