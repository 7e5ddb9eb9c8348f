-- ===== src/Dict/Iter.antt =====
-- The iterator of src/adt/dict.c, and the release of a dictionary. What an iterator points at is
-- the rest of a chain.
use skp.Common.{
  ◌+◌, Bool, not, ◌||◌, Option, none, some, List, [], ◌∷◌, ◌==◌, ltb, leb, if◌then◌else◌,
}
use skp.Dict.{Dict, DictNode, is_rehashing}
use skp.Dict.Table.{chain_at, find_next_bit, bucket_empty}
use skp.Dict.Calls.{dict_nodes, table_at, is_in_rehash}

module _ {E : Type 0} where
  -- `none` is a bucket behind the table, or the BUG_ON on an empty chain.
  pub dict_iter_init : Dict E → Option (List (DictNode E))
  dict_iter_init d =
      let bit = find_next_bit d.active.mapping 0 in
      let chain = chain_at d.active bit in
      if dict_nodes d == 0
      then some []
      else if not (ltb bit d.active.size) || bucket_empty chain
      then none
      else some chain

  -- From `try` on: the first chain of the other table, if the search was in the active one.
  pub iter_try : Dict E → Bool → List (DictNode E)
  iter_try d in_rehash =
      let bit = find_next_bit d.rehash.mapping 0 in
      if in_rehash || not (is_rehashing d)
      then []
      else if leb d.rehash.size bit
      then []
      else chain_at d.rehash bit

  -- The node that is handed out, and what is left.
  pub dict_iter_next : Dict E → List (DictNode E) → Option (DictNode E) × List (DictNode E)
  dict_iter_next d [] = (none, [])
  dict_iter_next d (node ∷ (next ∷ rest)) = (some node, next ∷ rest)
  dict_iter_next d (node ∷ []) =
      let in_rehash = is_in_rehash d node in
      let t = table_at d in_rehash in
      let bit = find_next_bit t.mapping (node.bindex + 1) in
      if leb t.size node.bindex
      then (some node, iter_try d in_rehash)
      else if leb t.size bit
      then (some node, iter_try d in_rehash)
      else (some node, chain_at t bit)
