-- ===== src/Dict/Tests.antt =====
-- A dictionary of src/adt/dict.c with numbers for keys, from two chains to four, and its theorems there.
mod Maps
use skp.Common.{ℕ, zero, suc, ◌≡◌, refl, true, false, some, [], ◌∷◌, arith}
use skp.Dict.{Dict, DictNode, DictTable, is_rehashing}
use skp.Dict.Table.Sound.{IsSound, Marks, total}
use skp.Dict.Rehash.{dict_rehash}
use skp.Dict.Rehash.Keeps.{whole}
use skp.Dict.Table.Weigh.{weigh}
use skp.Dict.Rehash.Weights.{weight}
use skp.Dict.Rehash.Progress.{IsValid, Underway, Idle, dict_rehash-IsValid, dict_rehash_completes}

-- the node at address `id`, with the number it is hashed to
abbrev node : ℕ → ℕ → ℕ → DictNode ℕ
node id key idx = record { id = id; entry = key; hvalue = key; whichb = false; bindex = idx }

abbrev small : DictTable ℕ
small = record {
  nr_nodes = 3;
  size = 2;
  bucket = (node 10 4 0 ∷ node 11 6 0 ∷ []) ∷ (node 12 7 1 ∷ []) ∷ [];
  mapping = true ∷ true ∷ [];
}

abbrev large : DictTable ℕ
large = record {
  nr_nodes = 0;
  size = 4;
  bucket = [] ∷ [] ∷ [] ∷ [] ∷ [];
  mapping = false ∷ false ∷ false ∷ false ∷ [];
}

abbrev growing : Dict ℕ
growing = record {
  rehashidx = some 0;
  expand_ratio = 8;
  reduce_ratio = 2;
  init_size = 2;
  active = small;
  rehash = large;
  which = false;
}

small-IsSound : IsSound small
unfolding total
small-IsSound = record {
  sized = refl;
  mapped = refl;
  marks = marks;
  counts = refl;
  fits = omega arith;
}
  where
    marks : Marks small.bucket small.mapping
    marks zero h = refl
    marks (suc zero) h = refl
    marks (suc (suc i)) h = absurd (omega arith)

large-IsSound : IsSound large
unfolding total
large-IsSound = record {
  sized = refl;
  mapped = refl;
  marks = marks;
  counts = refl;
  fits = omega arith;
}
  where
    marks : Marks large.bucket large.mapping
    marks zero h = refl
    marks (suc zero) h = refl
    marks (suc (suc zero)) h = refl
    marks (suc (suc (suc zero))) h = refl
    marks (suc (suc (suc (suc i)))) h = absurd (omega arith)

growing-Underway : Underway 0 growing
unfolding total
growing-Underway = record {
  is = refl;
  tables = record {
    active = small-IsSound;
    other = large-IsSound;
    fits = omega arith;
    bits = 2;
    bits_le = omega arith;
    other_size = refl;
  };
  behind = λ i h. absurd (omega arith);
  from_le = omega arith;
}

dict_rehash-IsValid_example :
    (d' : Dict ℕ) × (dict_rehash growing 1 ≡ some (is_rehashing d', d'))
    × IsValid d'
    × (whole d' ≡ whole growing)
dict_rehash-IsValid_example = dict_rehash-IsValid 1 growing-Underway

dict_rehash_completes_example :
    (d' : Dict ℕ) × (dict_rehash growing 3 ≡ some (false, d'))
    × Idle d'
    × (total d'.active.bucket ≡ whole growing)
    × (d'.rehash.bucket ≡ [])
    × ((w : ℕ → ℕ → ℕ) → weigh w d'.active.bucket ≡ weight w growing)
dict_rehash_completes_example = dict_rehash_completes 3 growing-Underway (omega arith)
