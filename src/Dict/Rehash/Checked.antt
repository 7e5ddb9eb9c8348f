-- ===== src/Dict/Rehash/Checked.antt =====
-- `__dict_check_rehashing` of src/adt/dict.c, with which the calls that change a dictionary begin.
use skp.Common.{ℕ, ◌+◌, ◌/◌, ◌<◌, ◌≡◌, refl, ap, ◌∙◌, true, inl, inr, none, some}
use skp.Dict.{Dict, is_rehashing}
use skp.Dict.Table.{find_next_bit, chain_at}
use skp.Dict.Table.Sound.{total}
use skp.Dict.Rehash.{dict_check_rehashing, dict_rehash, clamp, finish_rehash}
use skp.Dict.Rehash.Progress.{
  Underway, under_way, rehash_steps, advance, advance_lem, advance-Underway, retag,
}
use skp.Dict.Rehash.Weights.{
  Placements, SameNodes, SameNodes-refl, SameNodes-trans, bucket_rehash-Placements,
  finish_rehash-Placements,
}
use skp.Dict.Rehash.Resize.{Good}

module _ {E : Type 0} (hash_of : E → ℕ) where
  Kept : Dict E → Dict E → Type 0
  Kept d d' = Placements hash_of d' × SameNodes d d'

  advance-Kept :
      (d d' : Dict E) (from : ℕ)
      → Underway from d'
      → 0 < total d'.active.bucket
      → Kept d d'
      → Kept d (advance d' from)
  unfolding Kept
  advance-Kept d d' from v some_node (placed, same) =
      let index = find_next_bit d'.active.mapping from in
      let (lt, _, _, _, _) = advance-Underway d' v some_node in
      let (placed', same') =
        bucket_rehash-Placements hash_of (chain_at d'.active index)
          (record d' { rehashidx = some (index + 1) }) index (retag d' (some (index + 1)) v.tables)
          lt refl (record { active = placed.active; other = placed.other }) in
      rw (advance_lem d' from) (
        placed',
        SameNodes-trans same (record { weights = same'.weights; same_init = same'.same_init }),
      )

  finish-Kept : (d d' : Dict E) → total d'.active.bucket ≡ 0 → Kept d d' → Kept d (finish_rehash d')
  unfolding Kept
  finish-Kept d d' e (placed, same) =
      let (placed', same') = finish_rehash-Placements hash_of d' e placed in
      (placed', SameNodes-trans same same')

  idle_check : (d : Dict E) → d.rehashidx ≡ none → dict_check_rehashing d ≡ some (is_rehashing d, d)
  unfolding dict_check_rehashing
  idle_check d e = rw (e, dict_check_rehashing) refl

  busy_check :
      (d : Dict E)
      → is_rehashing d ≡ true
      → dict_check_rehashing d ≡ dict_rehash d (clamp (d.active.nr_nodes / d.active.size) 2 8)
  unfolding dict_check_rehashing
  busy_check d e = rw (e, dict_check_rehashing) refl

  -- Between calls, the check returns a dictionary that is as good, and holds the same nodes.
  pub dict_check_rehashing-Good :
      (d : Dict E)
      → Good hash_of d
      → (d' : Dict E) × (dict_check_rehashing d ≡ some (is_rehashing d', d'))
        × Good hash_of d'
        × SameNodes d d'
  unfolding Kept
  dict_check_rehashing-Good d g = elim g.valid [
    | inl v ↦ (d, idle_check d v.is, g, SameNodes-refl d)
    | inr (from, v) ↦
        let (more, d', runs, valid, _, says, _, (placed, same)) =
          rehash_steps (Kept d) (advance-Kept d) (finish-Kept d)
            (clamp (d.active.nr_nodes / d.active.size) 2 8) v (g.placed, SameNodes-refl d) in
        (
          d',
          busy_check d (under_way d v.is) ∙ runs ∙ ap (λ b. some (b, d')) says,
          record {
            valid = valid;
            placed = placed;
            init = (g.init.0, g.init.1, same.same_init ∙ g.init.2);
          },
          same,
        )
  ]
