-- ===== src/Dict/Rehash.antt =====
-- src/adt/dict.c: moving chains from the active table to the other one, and when to begin.
pub mod Keeps
pub mod Progress
pub mod Weights
pub mod Resize
pub mod Checked
use skp.Common.{
  ℕ, zero, suc, ◌+◌, ◌*◌, ◌/◌, ◌%◌, Bool, true, false, not, ◌&&◌, ◌||◌, Option, none, some, List,
  [], ◌∷◌, ◌==◌, ltb, leb, if◌then◌else◌,
}
use skp.Common.Word.{u32_mod}
use skp.Dict.{Dict, DictNode, is_rehashing}
use skp.Dict.Table.{
  bucket_index, chain_at, store_chain, erase_node_after, insert_node_before, dict_table_init,
  find_next_bit,
}

-- `max`
abbrev pub larger : ℕ → ℕ → ℕ
larger a b = if ltb a b then b else a

-- whether the new size is another one
abbrev pub changed : ℕ → ℕ → Option ℕ
changed old size = if (size == old) || (size == 0) then none else some size

-- `clamp_t`
abbrev pub clamp : ℕ → ℕ → ℕ → ℕ
clamp val lo hi = if ltb val lo then lo else if ltb hi val then hi else val

module _ {E : Type 0} where
  -- One turn of the loop of `__bucket_rehash`: the first node of chain `bit` goes to the front of
  -- its chain in the other table.
  unfoldable pub move_node : Dict E → DictNode E → List (DictNode E) → ℕ → Dict E
  move_node d node rest bit =
      let idx = bucket_index d.rehash node.hvalue in
      let marked = insert_node_before d.rehash idx in
      let moved = record node { bindex = idx; whichb = not d.which } in
      record d {
        active = erase_node_after (store_chain d.active bit rest) bit;
        rehash = store_chain marked idx (moved ∷ chain_at marked idx);
      }

  unfoldable pub bucket_rehash : Dict E → List (DictNode E) → ℕ → Dict E
  bucket_rehash d [] bit = d
  bucket_rehash d (node ∷ rest) bit = bucket_rehash (move_node d node rest bit) rest bit

  -- `swap`, then `table_release` of the table that is empty
  unfoldable pub finish_rehash : Dict E → Dict E
  finish_rehash d = record d {
    active = d.rehash;
    rehash = (dict_table_init true 0).1;
    which = not d.which;
    rehashidx = none;
  }

  -- `__dict_rehash` with the steps left: whether the rehash is still under way.
  unfoldable pub dict_rehash : Dict E → ℕ → Option (Bool × Dict E)
  dict_rehash d zero = some (is_rehashing d, d)
  dict_rehash d (suc step) = elim d.rehashidx [
    | none ↦ some (false, d)
    | some from ↦
        if d.active.nr_nodes == 0
        then some (false, finish_rehash d)
        else let index = find_next_bit d.active.mapping from in
          let rest =
            dict_rehash
              (bucket_rehash (record d { rehashidx = some (index + 1) }) (chain_at d.active index)
                index)
              step in
          if ltb index d.active.size then rest else none
  ]

  unfoldable pub dict_check_rehashing : Dict E → Option (Bool × Dict E)
  dict_check_rehashing d =
      if is_rehashing d
      then dict_rehash d (clamp (d.active.nr_nodes / d.active.size) 2 8)
      else some (false, d)

  -- The tests of the two branches. The quotient of two 32-bit numbers is compared with a 16-bit one,
  -- which a `double` is exact enough for: the products are.
  abbrev pub expands : Dict E → Bool
  expands d =
      not (d.expand_ratio == 65535)
      && (leb d.active.size d.active.nr_nodes
          && ltb (d.expand_ratio * d.active.size) d.active.nr_nodes)

  abbrev pub reduces : Dict E → Bool
  reduces d =
      ltb d.active.nr_nodes d.active.size
      && (not (d.expand_ratio == 1) && ltb d.active.nr_nodes (d.reduce_ratio * d.active.size))

  -- The new size of the table, or `none` where nothing is to be done.
  unfoldable pub resized : Dict E → Bool → Option ℕ
  resized d isexpand =
      let old = d.active.size in
      if (d.active.nr_nodes == 0) || is_rehashing d
      then none
      else if isexpand && expands d
      then changed old (larger old ((2 * old) % u32_mod))
      else if not isexpand && reduces d
      then changed old (larger d.init_size (old / 2))
      else none

  unfoldable pub resize_if_needed : Bool → Dict E → Bool → Bool × Dict E
  resize_if_needed allocated d isexpand = elim (resized d isexpand) [
    | none ↦ (false, d)
    | some size ↦
        let (done, table) = dict_table_init allocated size in
        (done, record d { rehash = table; rehashidx = if done then some 0 else d.rehashidx })
  ]
