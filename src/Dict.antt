-- ===== src/Dict.antt =====
-- include/skp/adt/dict.h and src/adt/dict.c: the hash table that rehashes a few buckets at a time.
-- A chain is the sequence of its nodes, `mapping` the sequence of its bits. The caller's hash and
-- comparisons are the fields of `DictOps`; whether `malloc` succeeds is an argument. `none` stands
-- for a BUG_ON that fires or an access behind a table.
pub mod Keyed
pub mod Table
pub mod Rehash
pub mod Calls
pub mod Iter
mod Tests
use skp.Common.{ℕ, Bool, true, false, Option, none, some, List}
use skp.Common.Int.{ℤ}

-- `struct dict_node`: `id` stands for its address, and `entry` for what the caller's structure holds
-- beside it.
pub record DictNode (E : Type 0) : Type 0 where
  pub id : ℕ
  pub entry : E
  pub hvalue : ℕ
  pub whichb : Bool
  pub bindex : ℕ

pub record DictTable (E : Type 0) : Type 0 where
  pub nr_nodes : ℕ
  pub size : ℕ
  pub bucket : List (List (DictNode E))
  pub mapping : List Bool

pub record DictOps (K E : Type 0) : Type 0 where
  pub calc_hash : K → ℕ
  pub compare_key : DictNode E → K → ℕ → ℤ
  pub compare_node : DictNode E → DictNode E → ℤ

-- `struct dict`: the tables that `active` and `rehash` point at, and which of `tables` is the active
-- one. A `rehashidx` of -1 is `none`.
pub record Dict (E : Type 0) : Type 0 where
  pub rehashidx : Option ℕ
  pub expand_ratio : ℕ
  pub reduce_ratio : ℕ
  pub init_size : ℕ
  pub active : DictTable E
  pub rehash : DictTable E
  pub which : Bool

pub record DictAttr : Type 0 where
  pub expand_ratio : ℕ
  pub reduce_ratio : ℕ
  pub init_size : ℕ

abbrev pub is_rehashing : {E : Type 0} → Dict E → Bool
is_rehashing d = elim d.rehashidx [ none ↦ false | some i ↦ true ]
