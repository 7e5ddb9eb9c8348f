-- ===== src/Dict/Rehash/Progress.antt =====
-- `__dict_rehash` of src/adt/dict.c stays within its tables, keeps every node, and comes to an end.
use mathlib.Core.Path.{subst}
use mathlib.Core.Bool.{false≢true}
use skp.Common.{
  ℕ, zero, suc, ◌+◌, ◌-◌, ◌^◌, ◌≤◌, ◌<◌, ◌≡◌, ◌≢◌, ◌⊎◌, refl, sym, ap, ◌∙◌, Bool, true, false, inl,
  inr, Option, none, some, [], arith, get_or, ◌==◌, ℕ_discrete, lt→ltb,
}
use skp.Dict.{Dict, is_rehashing}
use skp.Dict.Table.{chain_at, find_next_bit}
use skp.Dict.Table.Sound.{IsSound, total}
use skp.Dict.Table.Search.{find_next_bit_lem}
use skp.Dict.Table.Fresh.{total_nil, released}
use skp.Dict.Rehash.{bucket_rehash, finish_rehash, dict_rehash}
use skp.Dict.Rehash.Keeps.{Tables, whole, bucket_rehash-Shifted}
use skp.Dict.Table.Weigh.{weigh}
use skp.Dict.Rehash.Weights.{
  weight, SameNodes, SameNodes-refl, SameNodes-trans, bucket_rehash-SameNodes,
  finish_rehash-SameNodes, weight-alone,
}

module _ {E : Type 0} where
  -- A rehash is under way: the chains before `from` have been moved.
  pub record Underway (from : ℕ) (d : Dict E) : Type 0 where
    pub is : d.rehashidx ≡ some from
    pub tables : Tables d
    pub behind : (i : ℕ) → i < from → chain_at d.active i ≡ []
    pub from_le : from ≤ d.active.size

  -- No rehash is under way, and the other table holds nothing.
  pub record Idle (d : Dict E) : Type 0 where
    pub is : d.rehashidx ≡ none
    pub active : IsSound d.active
    pub bits : ℕ
    pub bits_le : bits ≤ 31
    pub size : d.active.size ≡ 2 ^ bits
    pub other : d.rehash.bucket ≡ []

  abbrev pub IsValid : Dict E → Type 0
  IsValid d = Idle d ⊎ ((from : ℕ) × Underway from d)

  finish-Idle : (d : Dict E) {from : ℕ} → Underway from d → Idle (finish_rehash d)
  unfolding finish_rehash
  finish-Idle d v = record {
    is = refl;
    active = v.tables.other;
    bits = v.tables.bits;
    bits_le = v.tables.bits_le;
    size = v.tables.other_size;
    other = released E;
  }

  whole-finish : (d : Dict E) → total d.active.bucket ≡ 0 → whole (finish_rehash d) ≡ whole d
  unfolding finish_rehash
  whole-finish d e = omega (arith, e, ap total (released E), total_nil E)

  pub retag : (d : Dict E) (idx : Option ℕ) → Tables d → Tables (record d { rehashidx = idx })
  retag d idx t = record {
    active = t.active;
    other = t.other;
    fits = t.fits;
    bits = t.bits;
    bits_le = t.bits_le;
    other_size = t.other_size;
  }

  -- one chain is moved
  pub advance : Dict E → ℕ → Dict E
  advance d from =
      let index = find_next_bit d.active.mapping from in
      bucket_rehash (record d { rehashidx = some (index + 1) }) (chain_at d.active index) index

  pub advance_lem :
      (d : Dict E) (from : ℕ)
      → advance d from
        ≡ bucket_rehash
            (record d { rehashidx = some (find_next_bit d.active.mapping from + 1) })
            (chain_at d.active (find_next_bit d.active.mapping from))
            (find_next_bit d.active.mapping from)
  unfolding advance
  advance_lem d from = refl

  pub advance-Underway :
      (d : Dict E) {from : ℕ}
      → Underway from d
      → 0 < total d.active.bucket
      → (find_next_bit d.active.mapping from < d.active.size)
        × (from ≤ find_next_bit d.active.mapping from)
        × Underway (find_next_bit d.active.mapping from + 1) (advance d from)
        × (whole (advance d from) ≡ whole d)
        × ((advance d from).active.size ≡ d.active.size)
  unfolding advance
  advance-Underway d {from} v some_node =
      let t = v.tables.active in
      let (lt, le, before) =
        find_next_bit_lem d.active.bucket d.active.mapping from (t.mapped ∙ sym t.sized) t.marks
          v.behind some_node in
      let index = find_next_bit d.active.mapping from in
      let s =
        bucket_rehash-Shifted (chain_at d.active index) (record d { rehashidx = some (index + 1) })
          index (retag d (some (index + 1)) v.tables) (omega (arith, lt, t.sized)) refl in
      (
        omega (arith, lt, t.sized),
        le,
        record {
          is = s.same_idx;
          tables = s.tables;
          behind = λ i h. elim (ℕ_discrete index i) [
            | yes p ↦ subst (λ j. get_or (advance d from).active.bucket j [] ≡ []) p s.chain
            | no p ↦ s.others i p ∙ before i (omega (arith, h, p))
          ];
          from_le = omega (arith, lt, t.sized, s.same_size);
        },
        s.same_whole,
        s.same_size,
      )

  runs_finish :
      (d : Dict E) {from : ℕ} (step : ℕ)
      → d.rehashidx ≡ some from
      → d.active.nr_nodes ≡ 0
      → dict_rehash d (suc step) ≡ some (false, finish_rehash d)
  unfolding dict_rehash finish_rehash
  runs_finish d step e z = rw (e, dict_rehash) (rw z refl)

  runs_on :
      (d : Dict E) {from : ℕ} (step : ℕ)
      → d.rehashidx ≡ some from
      → d.active.nr_nodes ≢ 0
      → find_next_bit d.active.mapping from < d.active.size
      → dict_rehash d (suc step) ≡ dict_rehash (advance d from) step
  unfolding dict_rehash advance
  runs_on d {from} step e nz lt =
      rw (e, dict_rehash)
        (rw
          (
            not_zero d.active.nr_nodes nz,
            lt→ltb (find_next_bit d.active.mapping from) d.active.size lt,
          )
          refl)
    where
      not_zero : (n : ℕ) → n ≢ 0 → (n == 0) ≡ false
      not_zero n h = ground arith

  stopped : (d : Dict E) → is_rehashing (finish_rehash d) ≡ false
  unfolding finish_rehash
  stopped d = refl

  -- Any number of steps, where they end, and what else the parts of a step keep.
  pub rehash_steps :
      (P : Dict E → Type 0)
      → ((d : Dict E) (from : ℕ)
          → Underway from d
          → 0 < total d.active.bucket
          → P d
          → P (advance d from))
      → ((d : Dict E) → total d.active.bucket ≡ 0 → P d → P (finish_rehash d))
      → (step : ℕ) {d : Dict E} {from : ℕ} → Underway from d
      → P d
      → (more : Bool) × (d' : Dict E) × (dict_rehash d step ≡ some (more, d'))
        × IsValid d'
        × (whole d' ≡ whole d)
        × (more ≡ is_rehashing d')
        × (d.active.size - from < step → more ≡ false)
        × P d'
  unfolding dict_rehash
  rehash_steps P moves ends zero {d} {from} v p =
      (is_rehashing d, d, refl, inr (from, v), refl, refl, (λ h. absurd (omega arith)), p)
  rehash_steps P moves ends (suc step) {d} {from} v p = elim (ℕ_discrete d.active.nr_nodes 0) [
    | yes z ↦ (
      false,
      finish_rehash d,
      runs_finish d step v.is z,
      inl (finish-Idle d v),
      whole-finish d (omega (arith, v.tables.active.counts, z)),
      sym (stopped d),
      λ h. refl,
      ends d (omega (arith, v.tables.active.counts, z)) p,
    )
    | no nz ↦
        let some_node : 0 < total d.active.bucket = omega (arith, v.tables.active.counts, nz) in
        let (lt, le, next, same, size) = advance-Underway d v some_node in
        let (more, d', runs, valid, same', says, done, q) =
          rehash_steps P moves ends step next (moves d from v some_node p) in
        (
          more,
          d',
          runs_on d step v.is nz lt ∙ runs,
          valid,
          same' ∙ same,
          says,
          (λ h. done (omega (arith, h, lt, le, size))),
          q,
        )
  ]

  steps :
      (step : ℕ) {d : Dict E} {from : ℕ}
      → Underway from d
      → (more : Bool) × (d' : Dict E) × (dict_rehash d step ≡ some (more, d'))
        × IsValid d'
        × (whole d' ≡ whole d)
        × (more ≡ is_rehashing d')
        × (d.active.size - from < step → more ≡ false)
        × Unit {0}
  steps step v = rehash_steps (λ _. Unit {0}) (λ d from v h p. tt) (λ d h p. tt) step v tt

  pub under_way : (d : Dict E) {from : ℕ} → d.rehashidx ≡ some from → is_rehashing d ≡ true
  under_way d e = rw e refl

  -- A rehash that is under way takes any number of steps and stays within its tables. It leaves
  -- a valid dictionary with as many nodes, and says whether it is still under way.
  pub dict_rehash-IsValid :
      (step : ℕ) {d : Dict E} {from : ℕ}
      → Underway from d
      → (d' : Dict E) × (dict_rehash d step ≡ some (is_rehashing d', d'))
        × IsValid d'
        × (whole d' ≡ whole d)
  dict_rehash-IsValid step v =
      let (more, d', runs, valid, same, says, ends, _) = steps step v in
      (d', runs ∙ ap (λ b. some (b, d')) says, valid, same)

  advance-SameNodes :
      (d e : Dict E) (from : ℕ)
      → Underway from e
      → 0 < total e.active.bucket
      → SameNodes d e
      → SameNodes d (advance e from)
  advance-SameNodes d e from v some_node same =
      let index = find_next_bit e.active.mapping from in
      let (lt, _, _, _, _) = advance-Underway e v some_node in
      let moved =
        bucket_rehash-SameNodes (chain_at e.active index)
          (record e { rehashidx = some (index + 1) }) index (retag e (some (index + 1)) v.tables) lt
          refl in
      rw (advance_lem e from)
        (SameNodes-trans same (record { weights = moved.weights; same_init = moved.same_init }))

  -- A rehash that is under way is done after one step more than there are chains left: the active
  -- table then has all the nodes, each with its address and its entry as often as the two tables had it
  -- (any weights of these have the same sum), and the other table none.
  pub dict_rehash_completes :
      (step : ℕ) {d : Dict E} {from : ℕ}
      → Underway from d
      → d.active.size - from < step
      → (d' : Dict E) × (dict_rehash d step ≡ some (false, d'))
        × Idle d'
        × (total d'.active.bucket ≡ whole d)
        × (d'.rehash.bucket ≡ [])
        × ((w : ℕ → E → ℕ) → weigh w d'.active.bucket ≡ weight w d)
  dict_rehash_completes step {d} v enough =
      let (more, d', runs, valid, same, says, ends, nodes) =
        rehash_steps (SameNodes d) (advance-SameNodes d)
          (λ e empty kept. SameNodes-trans kept (finish_rehash-SameNodes e empty)) step v
          (SameNodes-refl d) in
      let done = idle d' valid (sym says ∙ ends enough) in
      (
        d',
        runs ∙ ap (λ b. some (b, d')) (ends enough),
        done,
        omega (arith, same, ap total done.other, total_nil E),
        done.other,
        λ w. sym (weight-alone w d' done.other) ∙ nodes.weights w,
      )
    where
      idle : (d : Dict E) → IsValid d → is_rehashing d ≡ false → Idle d
      idle d (inl v) e = v
      idle d (inr (from, v)) e = absurd (false≢true (sym e ∙ under_way d v.is))
