-- ===== src/ListSort/Distribute.antt =====
-- The loop over the list of `list_sort` in src/algorithm/list_sort.c: it never runs off the array,
-- and merging what it leaves gives the sorted list.
use mathlib.Core.Path.{subst}
use skp.Common.{
  false, ℕ, suc, ◌-◌, ◌≤◌, ◌<◌, ◌≡◌, ◌≢◌, refl, sym, ap, ◌∙◌, some, List, [], ◌∷◌, ◌++◌, arith,
  length, length-set, get_or, get_or-set, set, append_assoc, dec_lt, dec_le, ℕ_discrete,
  if◌then◌else◌, ◌==◌, ltb,
}
use skp.Common.Int.{ℤ}
use skp.ListSort.{Parts, place, distribute}
use skp.ListSort.Order.{Comparison, insertion_sort, merge_one}
use skp.ListSort.Levels.{IsUnused, gather, gather-set-suc, Carried, carries, cons-ne-nil}

module _ {ℓ} {A : Type ℓ} (cmp : A → A → ℤ) where
  -- The array after the nodes `seen`.
  pub record Holds (seen : List A) (s : Parts A) : Type ℓ where
    pub sized : length s.part ≡ 21
    pub max_le : s.max_lev ≤ 19
    pub unused : IsUnused (suc s.max_lev) s.part
    pub filled : 0 < s.max_lev → get_or s.part s.max_lev [] ≢ []
    pub sorts :
        (rest : List A)
        → gather cmp s.part (insertion_sort cmp rest) ≡ insertion_sort cmp (seen ++ rest)

  -- what one turn of the loop promises
  abbrev pub Placed : List A → Parts A → A → Type ℓ
  Placed seen s x =
      (t : Parts A) × (place cmp s x ≡ some t)
      × Holds (seen ++ (x ∷ [])) t
      × (get_or t.part t.max_lev [] ≢ [])

module _ {ℓ} {A : Type ℓ} where
  -- reading an array of levels after a list was stored
  read_set :
      (part : List (List A)) (i j : ℕ) (cur : List A)
      → i < length part
      → get_or (set part i cur) j [] ≡ (if i == j then cur else get_or part j [])
  read_set part i j cur h = get_or-set part i j cur [] h

  read_self :
      (part : List (List A)) (i : ℕ) (cur : List A)
      → i < length part
      → get_or (set part i cur) i [] ≡ cur
  read_self part i cur h = ground (arith, read_set part i i cur h)

  read_other :
      (part : List (List A)) (i j : ℕ) (cur : List A)
      → i < length part
      → i ≢ j
      → get_or (set part i cur) j [] ≡ get_or part j []
  read_other part i j cur h ne = ground (arith, read_set part i j cur h, ne)

not_above : (a b : ℕ) → b ≤ a → ltb a b ≡ false
not_above a b h = ground arith

module _ {ℓ} {A : Type ℓ} {cmp : A → A → ℤ} (o : Comparison cmp) where
  module _ {seen : List A} {s : Parts A} (x : A) (v : Holds cmp seen s) where
    open v use {sized, max_le, unused, filled, sorts}

    carried : Carried cmp (suc s.max_lev) s.part (x ∷ [])
    carried =
        carries o (suc s.max_lev) s.part (x ∷ []) (cons-ne-nil x [])
          (unused (suc s.max_lev) (omega arith)) (omega (arith, sized, max_le))

    module _ (c : Carried cmp (suc s.max_lev) s.part (x ∷ [])) where
      abbrev after : ℕ → ℕ → Parts A
      after l m = record { part = set c.rest l c.merged; max_lev = m }

      rest-IsUnused : IsUnused (suc s.max_lev) c.rest
      rest-IsUnused i h = elim (dec_le i c.lev) [
        | yes p ↦ c.cleared i p
        | no p ↦ c.kept i (omega arith) ∙ unused i h
      ]

      rest_sized : length c.rest ≡ 21
      rest_sized = c.same_length ∙ sized

      sorts_after :
          (rest : List A)
          → gather cmp (set c.rest c.lev c.merged) (insertion_sort cmp rest)
            ≡ insertion_sort cmp ((seen ++ (x ∷ [])) ++ rest)
      unfolding insertion_sort
      sorts_after rest =
          c.gathers (insertion_sort cmp rest)
          ∙ ap (gather cmp s.part) (merge_one cmp x (insertion_sort cmp rest))
          ∙ sorts (x ∷ rest)
          ∙ ap (insertion_sort cmp) (sym (append_assoc seen (x ∷ []) rest))

      after-Holds :
          (l m : ℕ)
          → l ≤ m
          → s.max_lev ≤ m
          → m ≤ 19
          → get_or (set c.rest l c.merged) m [] ≢ []
          → ((list : List A)
              → gather cmp (set c.rest l c.merged) list
                ≡ gather cmp (set c.rest c.lev c.merged) list)
          → Holds cmp (seen ++ (x ∷ [])) (after l m)
      after-Holds l m l_le above m_le full same = record {
        sized = length-set c.rest l c.merged ∙ rest_sized;
        max_le = m_le;
        unused = λ i h.
            read_other c.rest l i c.merged (omega (arith, rest_sized)) (λ e. omega (arith, e))
            ∙ rest-IsUnused i (omega arith);
        filled = λ _. full;
        sorts = λ rest. same (insertion_sort cmp rest) ∙ sorts_after rest;
      }

      level_lt : c.lev < length c.rest
      level_lt = omega (arith, rest_sized, c.lev_le, max_le)

      -- the new list is not above the highest level
      below : c.lev ≤ s.max_lev → get_or (set c.rest c.lev c.merged) s.max_lev [] ≢ []
      below le e = elim (ℕ_discrete c.lev s.max_lev) [
        | yes p ↦ c.not_null (
            sym (read_self c.rest c.lev c.merged level_lt)
            ∙ ap (λ j. get_or (set c.rest c.lev c.merged) j []) p
            ∙ e)
        | no p ↦ filled (omega (arith, p)) (
            sym (c.kept s.max_lev (omega (arith, p)))
            ∙ sym (read_other c.rest c.lev s.max_lev c.merged level_lt p)
            ∙ e)
      ]

      runs_below : c.lev ≤ s.max_lev → place cmp s x ≡ some (after c.lev s.max_lev)
      unfolding place
      runs_below le = rw (c.runs, place) (rw (not_above s.max_lev c.lev le) refl)

      runs_above : s.max_lev < c.lev → c.lev < 20 → place cmp s x ≡ some (after c.lev c.lev)
      unfolding place
      runs_above lt small = rw (c.runs, place) (ground arith)

      runs_capped :
          s.max_lev < c.lev → 20 ≤ c.lev → place cmp s x ≡ some (after (c.lev - 1) (c.lev - 1))
      unfolding place
      runs_capped lt large = rw (c.runs, place) (ground arith)

      placed : Placed cmp seen s x
      placed = elim (dec_le c.lev s.max_lev) [
        | yes le ↦ (
          after c.lev s.max_lev,
          runs_below le,
          after-Holds c.lev s.max_lev le (omega arith) max_le (below le) (λ list. refl),
          below le,
        )
        | no gt ↦ elim (dec_lt c.lev 20) [
          | yes small ↦
              let full : get_or (set c.rest c.lev c.merged) c.lev [] ≢ [] =
                λ e. c.not_null (sym (read_self c.rest c.lev c.merged level_lt) ∙ e) in
              (
                after c.lev c.lev,
                runs_above (omega arith) small,
                after-Holds c.lev c.lev (omega arith) (omega arith) (omega arith) full
                    (λ list. refl),
                full,
              )
          | no large ↦
              let e : suc (c.lev - 1) ≡ c.lev = omega (arith, large) in
              let low : c.lev - 1 < length c.rest = omega (arith, level_lt) in
              let full : get_or (set c.rest (c.lev - 1) c.merged) (c.lev - 1) [] ≢ [] =
                λ n. c.not_null (sym (read_self c.rest (c.lev - 1) c.merged low) ∙ n) in
              (
                after (c.lev - 1) (c.lev - 1),
                runs_capped (omega arith) (omega arith),
                after-Holds (c.lev - 1) (c.lev - 1) (omega arith) (omega (arith, c.lev_le, max_le))
                    (omega (arith, c.lev_le, max_le)) full
                    (λ list.
                      gather-set-suc cmp (c.lev - 1) c.rest c.merged list
                        (c.cleared (c.lev - 1) (omega arith))
                        (c.cleared (suc (c.lev - 1)) (omega arith)) (omega (arith, level_lt))
                      ∙ ap (λ j. gather cmp (set c.rest j c.merged) list) e),
                full,
              )
        ]
      ]

  -- The loop over a list that is not empty leaves an array whose highest level is in use.
  pub distribute-Holds :
      (list : List A) (x : A) {seen : List A} {s : Parts A}
      → Holds cmp seen s
      → (t : Parts A) × (distribute cmp s (x ∷ list) ≡ some t)
        × Holds cmp (seen ++ (x ∷ list)) t
        × (get_or t.part t.max_lev [] ≢ [])
  unfolding distribute
  distribute-Holds [] x v =
      let (t, runs, holds, full) = placed x v (carried x v) in
      (t, rw (runs, distribute) (unfold distribute in refl), holds, full)
  distribute-Holds (y ∷ list) x {seen} v =
      let (t, runs, holds, full) = placed x v (carried x v) in
      let (u, runs_on, holds_on, full_on) = distribute-Holds list y holds in
      (
        u,
        rw (runs, distribute) runs_on,
        subst (λ l. Holds cmp l u) (append_assoc seen (x ∷ []) (y ∷ list)) holds_on,
        full_on,
      )
