-- ===== src/Dict/Calls.antt =====
-- The calls of src/adt/dict.c.
pub mod Searching
pub mod Find
pub mod Insert
pub mod Without
pub mod Remove
pub mod Maps
pub mod Init
use skp.Common.{
  ℕ, ◌-◌, ◌%◌, Bool, true, false, not, Option, none, some, [], ◌∷◌, ◌++◌, ◌==◌, leb, if◌then◌else◌,
}
use skp.Common.Word.{add32, u32_mod}
use skp.Bitops.{roundup_pow_of_two}
use skp.Dict.{Dict, DictNode, DictTable, DictOps, DictAttr, is_rehashing}
use skp.Dict.Table.{
  bucket_lookup, erase_node, bucket_index, chain_at, store_chain, erase_node_after,
  insert_node_before, dict_table_init,
}
use skp.Dict.Rehash.{dict_check_rehashing, resize_if_needed}

pub data InitStatus : Type 0 where
  ok enomem : InitStatus

-- a field of the attributes, or what stands for 0
abbrev pub given : ℕ → ℕ → ℕ
given value default = if value == 0 then default else value

module _ {E : Type 0} where
  pub dict_init : Bool → DictAttr → Option (InitStatus × Dict E)
  dict_init allocated attr =
      let expand = given attr.expand_ratio 8 in
      let reduce = given attr.reduce_ratio 2 in
      let size = roundup_pow_of_two (given attr.init_size 128) % u32_mod in
      let (done, table) = dict_table_init allocated size in
      if leb expand reduce
      then none
      else some (
        if done then ok else enomem,
        record {
          rehashidx = none;
          expand_ratio = expand;
          reduce_ratio = reduce;
          init_size = size;
          active = table;
          rehash = (dict_table_init true 0).1;
          which = false;
        },
      )

  unfoldable pub dict_nodes : Dict E → ℕ
  dict_nodes d =
      if is_rehashing d then add32 d.active.nr_nodes d.rehash.nr_nodes else d.active.nr_nodes

  -- `dict_node_init`, on a node that was taken out
  unfoldable pub dict_node_init : DictNode E → DictNode E
  dict_node_init node = record node { hvalue = u32_mod - 1; whichb = true; bindex = 2147483647 }

  -- `&dict->tables[node->whichb]`: whether that is the other table than the active one.
  pub is_in_rehash : Dict E → DictNode E → Bool
  is_in_rehash d node = if node.whichb then not d.which else d.which

  -- Writing to the active table, or to the other one.
  abbrev pub table_at : Dict E → Bool → DictTable E
  table_at d in_rehash = if in_rehash then d.rehash else d.active

  abbrev pub store_table : Dict E → Bool → DictTable E → Dict E
  store_table d true t = record d { rehash = t }
  store_table d false t = record d { active = t }

-- The variables of `__declare_lookup`: which table the search ended in, the hash and the chain, and
-- the node that was found.
pub record Lookup (E : Type 0) : Type 0 where
  pub in_rehash : Bool
  pub hashval : ℕ
  pub bucketidx : ℕ
  pub node : Option (DictNode E)

module _ {K E : Type 0} (ops : DictOps K E) where
  -- The search in one table.
  unfoldable pub look : DictTable E → ℕ → K → Bool → Lookup E
  look t hv key in_rehash =
      let idx = bucket_index t hv in
      record {
        in_rehash = in_rehash;
        hashval = hv;
        bucketidx = idx;
        node = bucket_lookup (λ n. ops.compare_key n key hv) (chain_at t idx);
      }

  unfoldable pub start_lookup : Dict E → K → Lookup E
  unfolding look
  start_lookup d key =
      let hv = ops.calc_hash key in
      let first = look d.active hv key false in
      elim first.node [
        | some n ↦ first
        | none ↦ if is_rehashing d then look d.rehash hv key true else first
      ]

  -- The node joins the end of the chain, where the search for its key ended.
  unfoldable pub link_node : Dict E → Lookup E → ℕ → E → Dict E
  link_node d found id entry =
      let node : DictNode E = record {
        id = id;
        entry = entry;
        hvalue = found.hashval;
        whichb = if found.in_rehash then not d.which else d.which;
        bindex = found.bucketidx;
      } in
      let t = insert_node_before (table_at d found.in_rehash) found.bucketidx in
      store_table d found.in_rehash
        (store_chain t found.bucketidx (chain_at t found.bucketidx ++ (node ∷ [])))

  -- the node that was there already, if any
  unfoldable pub dict_insert : Bool → Dict E → K → ℕ → E → Option (Option (DictNode E) × Dict E)
  dict_insert allocated d key id entry = elim (dict_check_rehashing d) [
    | none ↦ none
    | some (more, d1) ↦
        let d2 = (resize_if_needed allocated d1 true).1 in
        let found = start_lookup d2 key in
        elim found.node [
          | some old ↦ some (some old, d2)
          | none ↦ some (none, link_node d2 found id entry)
        ]
  ]

  pub dict_lookup : Dict E → K → Option (DictNode E)
  dict_lookup d key = if dict_nodes d == 0 then none else (start_lookup d key).node

  unfoldable pub dict_lookup_remove : Bool → Dict E → K → Option (Option (DictNode E) × Dict E)
  dict_lookup_remove allocated d key = elim (dict_check_rehashing d) [
    | none ↦ none
    | some (more, d1) ↦
        if dict_nodes d1 == 0
        then some (none, d1)
        else let found = start_lookup d1 key in
          elim found.node [
            | none ↦ some (none, d1)
            | some node ↦
                let t = table_at d1 found.in_rehash in
                let chain =
                  erase_node (λ n. ops.compare_key n key found.hashval)
                    (chain_at t found.bucketidx) in
                let d2 =
                  store_table d1 found.in_rehash
                    (erase_node_after (store_chain t found.bucketidx chain) found.bucketidx) in
                some (some (dict_node_init node), (resize_if_needed allocated d2 false).1)
          ]
  ]

  -- `linked` is the test that the node is in a chain; `false` beside the dictionary is -EINVAL.
  pub dict_direct_remove : Bool → Dict E → DictNode E → Bool → Option (Bool × Dict E)
  dict_direct_remove allocated d node linked =
      let in_rehash = is_in_rehash d node in
      let t = table_at d in_rehash in
      let idx = bucket_index t node.hvalue in
      let compare = λ (n : DictNode E). ops.compare_node n node in
      let d1 =
        store_table d in_rehash
          (erase_node_after (store_chain t idx (erase_node compare (chain_at t idx))) idx) in
      if not linked
      then some (false, d)
      else if not (idx == node.bindex)
      then none
      else elim (bucket_lookup compare (chain_at t idx)) [
        | none ↦ none
        | some tmp ↦
            if tmp.id == node.id then some (true, (resize_if_needed allocated d1 false).1) else none
      ]
