-- ===== src/ListSort/Levels.antt =====
-- The array of partial lists of src/algorithm/list_sort.c, read as the one list that merging all of
-- it gives, and what the carry of a new list through it leaves.
use skp.Common.{
  ℕ, zero, suc, ◌≤◌, ◌<◌, ◌≡◌, ◌≢◌, refl, sym, ap, ◌∙◌, some, List, [], ◌∷◌, arith, length, get_or,
  set,
}
use skp.Common.Int.{ℤ}
use skp.ListSort.{merge, carry, join}
use skp.ListSort.Order.{Comparison, merge_assoc, nil_merge}

module _ {ℓ} {A : Type ℓ} where
  -- all levels from `m` on are NULL
  abbrev pub IsUnused : ℕ → List (List A) → Type ℓ
  IsUnused m part = (i : ℕ) → m ≤ i → get_or part i [] ≡ []

  pub cons-ne-nil : (x : A) (xs : List A) → x ∷ xs ≢ []
  cons-ne-nil x xs e = cc

  cleared_zero : (part : List (List A)) (i : ℕ) → i ≤ 0 → get_or ([] ∷ part) i [] ≡ []
  cleared_zero part zero h = refl
  cleared_zero part (suc i) h = absurd (omega arith)

  cleared_suc :
      (rest : List (List A)) (lev : ℕ)
      → ((i : ℕ) → i ≤ lev → get_or rest i [] ≡ [])
      → (i : ℕ) → i ≤ suc lev
      → get_or ([] ∷ rest) i [] ≡ []
  cleared_suc rest lev f zero h = refl
  cleared_suc rest lev f (suc i) h = f i (omega arith)

  kept_suc :
      (p : List A) (part rest : List (List A)) (lev : ℕ)
      → ((i : ℕ) → lev < i → get_or rest i [] ≡ get_or part i [])
      → (i : ℕ) → suc lev < i
      → get_or ([] ∷ rest) i [] ≡ get_or (p ∷ part) i []
  kept_suc p part rest lev f zero h = absurd (omega arith)
  kept_suc p part rest lev f (suc i) h = f i (omega arith)

module _ {ℓ} {A : Type ℓ} (cmp : A → A → ℤ) where
  -- merging all levels, the lowest first, with a list that comes last
  pub gather : List (List A) → List A → List A
  gather [] list = list
  gather (p ∷ part) list = gather part (merge cmp p list)

  pub merge-ne_nil : (x : A) (a b : List A) → merge cmp (x ∷ a) b ≢ []
  unfolding merge
  merge-ne_nil x a [] e = cons-ne-nil x a e
  merge-ne_nil x a (y ∷ b) e = ground arith

  pub gather-IsUnused :
      (part : List (List A)) (list : List A) → IsUnused 0 part → gather part list ≡ list
  unfolding gather
  gather-IsUnused [] list u = refl
  gather-IsUnused (p ∷ part) list u =
      ap (λ q. gather part (merge cmp q list)) (u 0 (omega arith))
      ∙ ap (gather part) (nil_merge cmp list)
      ∙ gather-IsUnused part list (λ i h. u (suc i) (omega arith))

  -- The last loop and the final merge use every level.
  pub join-gather :
      (m : ℕ) (part : List (List A)) (list : List A)
      → IsUnused (suc m) part
      → m < length part
      → merge cmp (get_or part m []) (join cmp m part list) ≡ gather part list
  unfolding join gather
  join-gather m [] list u h = absurd (omega arith)
  join-gather zero (p ∷ part) list u h =
      sym (gather-IsUnused part (merge cmp p list) (λ i h. u (suc i) (omega arith)))
  join-gather (suc m) ([] ∷ part) list u h =
      join-gather m part list (λ i h. u (suc i) (omega arith)) (omega arith)
      ∙ ap (gather part) (sym (nil_merge cmp list))
  join-gather (suc m) ((x ∷ p) ∷ part) list u h =
      join-gather m part (merge cmp (x ∷ p) list) (λ i h. u (suc i) (omega arith)) (omega arith)

  -- A list may stand at either of two neighbouring levels that are free.
  pub gather-set-suc :
      (n : ℕ) (part : List (List A)) (cur list : List A)
      → get_or part n [] ≡ []
      → get_or part (suc n) [] ≡ []
      → suc n < length part
      → gather (set part n cur) list ≡ gather (set part (suc n) cur) list
  unfolding gather
  gather-set-suc n [] cur list e f h = absurd (omega arith)
  gather-set-suc n (p ∷ []) cur list e f h = absurd (omega arith)
  gather-set-suc zero (p ∷ q ∷ part) cur list e f h =
      ap (λ t. gather part (merge cmp t (merge cmp cur list))) f
      ∙ ap (gather part) (nil_merge cmp (merge cmp cur list))
      ∙ ap (λ t. gather part (merge cmp cur t)) (sym (nil_merge cmp list))
      ∙ ap (λ t. gather part (merge cmp cur (merge cmp t list))) (sym e)
  gather-set-suc (suc n) (p ∷ q ∷ part) cur list e f h =
      gather-set-suc n (q ∷ part) cur (merge cmp p list) e f (omega arith)

  -- What the carry of `cur` through the levels below `m` leaves: a free level that is not above
  -- `m`, to store what was merged at; the levels above it as they were, and those below it free.
  pub record Carried (m : ℕ) (part : List (List A)) (cur : List A) : Type ℓ where
    pub lev : ℕ
    pub rest : List (List A)
    pub merged : List A
    pub runs : carry cmp part cur ≡ some (lev, rest, merged)
    pub lev_le : lev ≤ m
    pub same_length : length rest ≡ length part
    pub kept : (i : ℕ) → lev < i → get_or rest i [] ≡ get_or part i []
    pub cleared : (i : ℕ) → i ≤ lev → get_or rest i [] ≡ []
    pub free : get_or part lev [] ≡ []
    pub not_null : merged ≢ []
    pub gathers :
        (list : List A) → gather (set rest lev merged) list ≡ gather part (merge cmp cur list)

module _ {ℓ} {A : Type ℓ} {cmp : A → A → ℤ} (o : Comparison cmp) where
  pub carries :
      (m : ℕ) (part : List (List A)) (cur : List A)
      → cur ≢ []
      → get_or part m [] ≡ []
      → m < length part
      → Carried cmp m part cur
  unfolding carry gather
  carries m [] cur some_cur u h = absurd (omega arith)
  carries m ([] ∷ part) cur some_cur u h = record {
    lev = 0;
    rest = [] ∷ part;
    merged = cur;
    runs = refl;
    lev_le = omega arith;
    same_length = refl;
    kept = λ i h. refl;
    cleared = cleared_zero part;
    free = refl;
    not_null = some_cur;
    gathers = λ list. ap (gather cmp part) (sym (nil_merge cmp (merge cmp cur list)));
  }
  carries zero ((x ∷ p) ∷ part) cur some_cur u h = absurd (cons-ne-nil x p u)
  carries (suc m) ((x ∷ p) ∷ part) cur some_cur u h =
      let c = carries m part (merge cmp (x ∷ p) cur) (merge-ne_nil cmp x p cur) u (omega arith) in
      record {
        lev = suc c.lev;
        rest = [] ∷ c.rest;
        merged = c.merged;
        runs = rw c.runs refl;
        lev_le = omega (arith, c.lev_le);
        same_length = ap suc c.same_length;
        kept = kept_suc (x ∷ p) part c.rest c.lev c.kept;
        cleared = cleared_suc c.rest c.lev c.cleared;
        free = c.free;
        not_null = c.not_null;
        gathers = λ list.
            ap (gather cmp (set c.rest c.lev c.merged)) (nil_merge cmp list)
            ∙ c.gathers list
            ∙ ap (gather cmp part) (merge_assoc o (x ∷ p) cur list);
      }
