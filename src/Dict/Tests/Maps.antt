-- ===== src/Dict/Tests/Maps.antt =====
-- The calls of src/adt/dict.c on a dictionary whose keys are numbers, and their theorems there. A key is
-- its own hash.
use skp.Common.{
  ap, ◌∙◌, sym, ℕ, zero, suc, ◌<◌, ◌==◌, ◌≡◌, inr, refl, true, false, Option, none, some, [], ◌∷◌,
  arith, if◌then◌else◌,
}
use skp.Common.Int.{is_zero, ℤ, pos}
use skp.Common.Word.{u32_mod}
use skp.Dict.{DictAttr}
use skp.Dict.Calls.{ok, dict_init}
use skp.Dict.Calls.Init.{dict_init-Good}
use skp.Dict.{Dict, DictNode, DictOps}
use skp.Dict.Keyed.{Keyed}
use skp.Dict.Table.Weigh.{Placed, weigh}
use skp.Dict.Rehash.Resize.{Good}
use skp.Dict.Table.{
  find_next_bit, erase_node_after, insert_node_before, bucket_index, bucket_lookup, dict_table_init,
  erase_node,
}
use skp.Dict.Rehash.{
  dict_check_rehashing, dict_rehash, bucket_rehash, move_node, finish_rehash, resize_if_needed,
  resized,
}
use skp.Dict.Calls.{
  dict_node_init, dict_nodes, dict_lookup, dict_insert, dict_lookup_remove, link_node, look,
  start_lookup,
}
use skp.Dict.Calls.Find.{Answers, dict_lookup-Answers}
use skp.Dict.Calls.Insert.{Inserted, dict_insert_refines}
use skp.Dict.Calls.Remove.{Removed, dict_lookup_remove_refines}
use skp.Dict.Calls.Maps.{
  IsMap, dict_insert-IsMap, dict_lookup-dict_insert, dict_lookup-dict_lookup_remove,
}
use skp.Dict.Table.Sound.{total}
use skp.Dict.Rehash.Keeps.{whole}
use skp.Dict.Tests.{growing, small, large, node, growing-Underway}

abbrev compare : ℕ → ℕ → ℤ
compare a b = if a == b then pos 0 else pos 1

abbrev numbers : DictOps ℕ ℕ
numbers = record {
  calc_hash = λ k. k;
  compare_key = λ n k h. compare n.entry k;
  compare_node = λ n m. compare n.entry m.entry;
}

decides :
    (n : DictNode ℕ) (k : ℕ) → n.hvalue ≡ n.entry → is_zero (compare n.entry k) ≡ (n.entry == k)
decides n k h = ground arith

agrees : (e k : ℕ) → (e == k) ≡ true → e ≡ k
agrees e k m = ground (arith, m)

abbrev numbers-Keyed : Keyed numbers
numbers-Keyed = record {
  matches = λ e k. e == k;
  hash_of = λ e. e;
  compares = decides;
  hashes = agrees;
  alike = λ e e' k k' m m'. ap (λ x. e' == x) (sym (agrees e k m) ∙ agrees e k' m');
}

growing-Good : Good (λ e. e) growing
growing-Good = record {
  valid = inr (0, growing-Underway);
  placed = record { active = active; other = other };
  init = (1, omega arith, refl);
}
  where
    active : Placed (λ e. e) false small
    active zero = (refl, refl, refl, refl, (refl, refl, refl, refl, tt))
    active (suc zero) = (refl, refl, refl, refl, tt)
    active (suc (suc i)) = tt

    other : Placed (λ e. e) true large
    other zero = tt
    other (suc zero) = tt
    other (suc (suc zero)) = tt
    other (suc (suc (suc zero))) = tt
    other (suc (suc (suc (suc i)))) = tt

growing-room : suc (whole growing) < u32_mod
unfolding total
growing-room = omega arith

growing-IsMap : IsMap numbers-Keyed growing
unfolding weigh
growing-IsMap k = ground arith

dict_lookup-Answers_example : Answers numbers-Keyed growing 7 (dict_lookup numbers growing 7)
dict_lookup-Answers_example = dict_lookup-Answers numbers-Keyed growing 7 growing-Good

dict_insert_refines_example :
    (r : Option (DictNode ℕ)) × (d' : Dict ℕ) × (dict_insert numbers true growing 9 13 9
      ≡ some (r, d'))
    × Good (λ e. e) d'
    × Inserted numbers-Keyed growing d' 9 13 9 r
dict_insert_refines_example =
    dict_insert_refines numbers-Keyed true growing 9 13 9 growing-Good growing-room refl

dict_lookup_remove_refines_example :
    (r : Option (DictNode ℕ)) × (d' : Dict ℕ) × (dict_lookup_remove numbers true growing 6
      ≡ some (r, d'))
    × Good (λ e. e) d'
    × Removed numbers-Keyed growing d' 6 r
dict_lookup_remove_refines_example =
    dict_lookup_remove_refines numbers-Keyed true growing 6 growing-Good

-- a node of the larger table, and the one that is taken out
abbrev moved : ℕ → ℕ → ℕ → DictNode ℕ
moved id key idx = record (node id key idx) { whichb = true }

abbrev taken : DictNode ℕ
taken = record { id = 11; entry = 6; hvalue = 4294967295; whichb = true; bindex = 2147483647 }

-- with 9 in it at address 13, and every node in the larger table
abbrev after_insert : Dict ℕ
after_insert = record growing {
  rehashidx = some 2;
  active = record { nr_nodes = 0; size = 2; bucket = [] ∷ [] ∷ []; mapping = false ∷ false ∷ [] };
  rehash = record {
    nr_nodes = 4;
    size = 4;
    bucket =
        (moved 10 4 0 ∷ []) ∷ (moved 13 9 1 ∷ []) ∷ (moved 11 6 2 ∷ []) ∷ (moved 12 7 3 ∷ []) ∷ [];
    mapping = true ∷ true ∷ true ∷ true ∷ [];
  };
}

-- without 6
abbrev after_remove : Dict ℕ
after_remove = record after_insert {
  rehash = record {
    nr_nodes = 2;
    size = 4;
    bucket = (moved 10 4 0 ∷ []) ∷ [] ∷ [] ∷ (moved 12 7 3 ∷ []) ∷ [];
    mapping = true ∷ false ∷ false ∷ true ∷ [];
  };
}

inserts_new : dict_insert numbers true growing 9 13 9 ≡ some (none, after_insert)
unfolding dict_insert dict_check_rehashing dict_rehash bucket_rehash move_node finish_rehash
    resize_if_needed resized find_next_bit erase_node_after insert_node_before bucket_index
    bucket_lookup start_lookup look link_node dict_table_init
inserts_new = refl

removes_six : dict_lookup_remove numbers true growing 6 ≡ some (some (taken), after_remove)
unfolding dict_check_rehashing dict_rehash bucket_rehash move_node finish_rehash resize_if_needed
    resized find_next_bit erase_node_after insert_node_before bucket_index bucket_lookup
    start_lookup look dict_table_init dict_lookup_remove dict_nodes dict_node_init erase_node
removes_six = refl

dict_insert-IsMap_example : IsMap numbers-Keyed after_insert
dict_insert-IsMap_example =
    dict_insert-IsMap numbers-Keyed true growing after_insert 9 13 9 none growing-Good growing-room
      refl growing-IsMap inserts_new

dict_lookup-dict_insert_example :
    (n : DictNode ℕ) × (dict_lookup numbers after_insert 9 ≡ some n) × (n.id ≡ 13)
dict_lookup-dict_insert_example =
    dict_lookup-dict_insert numbers-Keyed true growing after_insert 9 13 9 growing-Good growing-room
      refl inserts_new

dict_lookup-dict_lookup_remove_example : dict_lookup numbers after_remove 6 ≡ none
dict_lookup-dict_lookup_remove_example =
    dict_lookup-dict_lookup_remove numbers-Keyed true growing after_remove 6 (some taken)
      growing-Good growing-IsMap removes_six

abbrev three_chains : DictAttr
three_chains = record { expand_ratio = 0; reduce_ratio = 0; init_size = 3 }

dict_init-Good_example :
    (d : Dict ℕ) × (dict_init true three_chains ≡ some (ok, d)) × Good (λ e. e) d × (whole d ≡ 0)
dict_init-Good_example = dict_init-Good (λ e. e) three_chains (omega arith) (omega arith)
