-- ===== src/Dict/Calls/Remove.antt =====
-- `dict_lookup_remove` of src/adt/dict.c.
use skp.Common.{
  ℕ, ◌+◌, ◌≡◌, ◌≢◌, inl, inr, refl, sym, ap, ◌∙◌, Bool, true, false, Option, none, some, ◌==◌,
  arith, if◌then◌else◌, ℕ_discrete,
}
use skp.Dict.{Dict, DictNode, DictOps}
use skp.Dict.Keyed.{Keyed}
use skp.Dict.Table.{chain_at, store_chain, erase_node_after, erase_node}
use skp.Dict.Table.Keys.{hits}
use skp.Dict.Rehash.{dict_check_rehashing, resize_if_needed}
use skp.Dict.Rehash.Weights.{weight}
use skp.Dict.Rehash.Resize.{Good, resize_if_needed-Good}
use skp.Dict.Rehash.Checked.{dict_check_rehashing-Good}
use skp.Dict.Calls.{
  Lookup, look, start_lookup, dict_nodes, dict_node_init, dict_lookup_remove, table_at, store_table,
}
use skp.Dict.Calls.Searching.{occurrences, start_lookup-cases}
use skp.Dict.Calls.Without.{without, without-Good}
use skp.Dict.Calls.Find.{dict_nodes-whole, nowhere}

module _ {K E : Type 0} {ops : DictOps K E} (keyed : Keyed ops) where
  -- what follows the search
  abbrev with_node :
      Bool → K → Dict E → Lookup E → Option (DictNode E) → Option (Option (DictNode E) × Dict E)
  with_node allocated k d l none = some (none, d)
  with_node allocated k d l (some n) =
      let t = table_at d l.in_rehash in
      let chain = erase_node (λ m. ops.compare_key m k l.hashval) (chain_at t l.bucketidx) in
      let d2 =
        store_table d l.in_rehash
          (erase_node_after (store_chain t l.bucketidx chain) l.bucketidx) in
      some (some (dict_node_init n), (resize_if_needed allocated d2 false).1)

  with_found :
      (allocated : Bool) (d : Dict E) (k : K) (b : Bool) (n : DictNode E)
      → with_node allocated k d (look ops (table_at d b) (ops.calc_hash k) k b) (some n)
        ≡ some (some (dict_node_init n), (resize_if_needed allocated (without keyed d b k) false).1)
  unfolding look
  with_found allocated d k b n = refl

  module _ (allocated : Bool) (d d1 : Dict E) (k : K) (more : Bool) (l : Lookup E)
      (checked : dict_check_rehashing d ≡ some (more, d1))
      (searched : start_lookup ops d1 k ≡ l) where
    -- what follows the check
    abbrev with_check : Option (Bool × Dict E) → Option (Option (DictNode E) × Dict E)
    with_check none = none
    with_check (some r) =
        if dict_nodes r.1 == 0
        then some (none, r.1)
        else with_node allocated k r.1 (start_lookup ops r.1 k) (start_lookup ops r.1 k).node

    remove_steps :
        dict_nodes d1 ≢ 0 → dict_lookup_remove ops allocated d k ≡ with_node allocated k d1 l l.node
    unfolding dict_lookup_remove
    remove_steps ne =
        ap with_check checked
        ∙ ground (arith, ne)
        ∙ ap (λ (x : Lookup E). with_node allocated k d1 x x.node) searched

    remove_empty : dict_nodes d1 ≡ 0 → dict_lookup_remove ops allocated d k ≡ some (none, d1)
    unfolding dict_lookup_remove
    remove_empty e = ap with_check checked ∙ ground (arith, e)

  -- what a removal may do
  abbrev pub Removed : Dict E → Dict E → K → Option (DictNode E) → Type 0
  Removed d d' k none = (occurrences keyed k d ≡ 0) × ((w : ℕ → E → ℕ) → weight w d' ≡ weight w d)
  Removed d d' k (some n) =
      (keyed.matches n.entry k ≡ true)
      × ((w : ℕ → E → ℕ) → weight w d' + w n.id n.entry ≡ weight w d)

  -- A removal from a dictionary between calls returns, whether or not there is memory for a smaller
  -- table, and leaves a dictionary between calls. If there is a node with the key, it takes out one,
  -- and only that one; if there is none, it returns NULL and keeps the nodes.
  pub dict_lookup_remove_refines :
      (allocated : Bool) (d : Dict E) (k : K)
      → Good keyed.hash_of d
      → (r : Option (DictNode E)) × (d' : Dict E) × (dict_lookup_remove ops allocated d k
          ≡ some (r, d'))
        × Good keyed.hash_of d'
        × Removed d d' k r
  unfolding dict_node_init
  dict_lookup_remove_refines allocated d k g =
      let (d1, checked, g1, same) = dict_check_rehashing-Good keyed.hash_of d g in
      let same_hits : occurrences keyed k d1 ≡ occurrences keyed k d =
        same.weights (hits keyed k) in
      elim (ℕ_discrete (dict_nodes d1) 0) [
        | yes e ↦ (
          none,
          d1,
          remove_empty allocated d d1 k _ _ checked refl e,
          g1,
          (
            sym same_hits ∙ nowhere keyed d1 k (sym (dict_nodes-whole d1 g1.valid) ∙ e),
            same.weights,
          ),
        )
        | no ne ↦ elim (start_lookup-cases keyed d1 k g1) [
          | inr (b, x) ↦ (
            none,
            d1,
            remove_steps allocated d d1 k _ _ checked x.runs ne
                ∙ ap (with_node allocated k d1 (look ops (table_at d1 b) (ops.calc_hash k) k b))
                    x.node,
            g1,
            (sym same_hits ∙ x.nowhere, same.weights),
          )
          | inl (b, n, h) ↦
              let (g2, out) = without-Good keyed d1 b k n g1 h in
              let (d3, resized, g3, same3) =
                resize_if_needed-Good keyed.hash_of allocated (without keyed d1 b k) false g2 in
              (
                some (dict_node_init n),
                d3,
                remove_steps allocated d d1 k _ _ checked h.runs ne
                    ∙ ap (with_node allocated k d1 (look ops (table_at d1 b) (ops.calc_hash k) k b))
                        h.node
                    ∙ with_found allocated d1 k b n
                    ∙ ap (λ u. some (some (dict_node_init n), u)) resized,
                g3,
                (h.found.same_key, λ w. omega (arith, out w, same3.weights w, same.weights w)),
              )
        ]
      ]
