-- ===== src/Dict/Table.antt =====
-- One table of src/adt/dict.c: its chains, its counter and the map of the chains that are in use.
pub mod Sound
pub mod Search
pub mod Fresh
pub mod Weigh
pub mod Keys
use Prim.Native.Nat.{bit_and}
use skp.Common.{
  ℕ, zero, suc, Bool, true, false, not, Option, none, some, List, [], ◌∷◌, ◌==◌, if◌then◌else◌,
  get_or, set, replicate,
}
use skp.Common.Int.{ℤ, is_zero}
use skp.Common.Word.{add32, sub32}
use skp.Dict.{DictNode, DictTable}

module _ {E : Type 0} where
  -- `__bucket_empty`
  abbrev pub bucket_empty : List (DictNode E) → Bool
  bucket_empty [] = true
  bucket_empty (n ∷ ns) = false

  -- The first node of a chain that a comparison, its node fixed or its key, finds equal.
  unfoldable pub bucket_lookup : (DictNode E → ℤ) → List (DictNode E) → Option (DictNode E)
  bucket_lookup compare [] = none
  bucket_lookup compare (n ∷ ns) = if is_zero (compare n) then some n else bucket_lookup compare ns

  -- `__erase_node` at the link that the same search ends at
  unfoldable pub erase_node : (DictNode E → ℤ) → List (DictNode E) → List (DictNode E)
  erase_node compare [] = []
  erase_node compare (n ∷ ns) = if is_zero (compare n) then ns else n ∷ erase_node compare ns

  -- `__get_bucket`, less the pointer
  unfoldable pub bucket_index : DictTable E → ℕ → ℕ
  bucket_index t hvalue = bit_and hvalue (sub32 t.size 1)

  abbrev pub chain_at : DictTable E → ℕ → List (DictNode E)
  chain_at t idx = get_or t.bucket idx []

  -- The pointers into a table that are written through, one chain at a time.
  abbrev pub store_chain : DictTable E → ℕ → List (DictNode E) → DictTable E
  store_chain t idx chain = record t { bucket = set t.bucket idx chain }

  unfoldable pub erase_node_after : DictTable E → ℕ → DictTable E
  erase_node_after t idx =
      let t = record t { nr_nodes = sub32 t.nr_nodes 1 } in
      if bucket_empty (chain_at t idx) then record t { mapping = set t.mapping idx false } else t

  unfoldable pub insert_node_before : DictTable E → ℕ → DictTable E
  insert_node_before t idx =
      let t' =
        if bucket_empty (chain_at t idx)
        then record t { mapping = set t.mapping idx true }
        else t in
      record t' { nr_nodes = add32 t'.nr_nodes 1 }

  -- `dict_table_init`, less what it does to `rehashidx`: whether it succeeds, and the table.
  unfoldable pub dict_table_init : Bool → ℕ → Bool × DictTable E
  dict_table_init allocated size =
      if size == 0
      then (true, record { nr_nodes = 0; size = 0; bucket = []; mapping = [] })
      else if not allocated
      then (false, record { nr_nodes = 0; size = size; bucket = []; mapping = [] })
      else (
        true,
        record {
          nr_nodes = 0;
          size = size;
          bucket = replicate size [];
          mapping = replicate size false;
        },
      )

-- `find_next_bit` on the bits of a table: the first one that is set from `offset` on, or their number.
unfoldable pub find_next_bit : List Bool → ℕ → ℕ
find_next_bit [] offset = 0
find_next_bit (b ∷ bits) zero = if b then 0 else suc (find_next_bit bits 0)
find_next_bit (b ∷ bits) (suc offset) = suc (find_next_bit bits offset)
