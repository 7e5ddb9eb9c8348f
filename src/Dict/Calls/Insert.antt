-- ===== src/Dict/Calls/Insert.antt =====
-- `dict_insert` of src/adt/dict.c.
use skp.Common.{
  ℕ, suc, ◌+◌, ◌≤◌, ◌<◌, ◌≡◌, inl, inr, refl, sym, ap, ◌∙◌, Bool, true, false, not, Option, none,
  some, [], ◌∷◌, ◌++◌, ◌^◌, arith, length, length-append,
}
use mathlib.Core.Bool.{true≢false}
use skp.Common.Word.{u32_mod}
use skp.Dict.{Dict, DictNode, DictTable, DictOps, is_rehashing}
use skp.Dict.Keyed.{Keyed}
use skp.Dict.Table.{chain_at, store_chain, bucket_index, insert_node_before}
use skp.Dict.Table.Sound.{
  IsSound, total, bucket_index-lt, insert-IsSound, size-inserted, chain_at-insert_node_before,
}
use skp.Dict.Table.Weigh.{
  weigh, weigh_chain, weigh_chain-append, weigh-inserted, Placed, AllIn, AllIn-append,
  inserted-Placed, bucket_index_lem,
}
use skp.Dict.Table.Keys.{hits}
use skp.Dict.Rehash.{dict_check_rehashing, resize_if_needed}
use skp.Dict.Rehash.Keeps.{whole}
use skp.Dict.Rehash.Progress.{under_way}
use skp.Dict.Rehash.Weights.{weight, SameNodes-trans, SameNodes-whole}
use skp.Dict.Rehash.Resize.{Good, resize_if_needed-Good}
use skp.Dict.Rehash.Checked.{dict_check_rehashing-Good}
use skp.Dict.Calls.{Lookup, look, start_lookup, link_node, dict_insert, table_at, store_table}
use skp.Dict.Calls.Searching.{occurrences, side, Idle-says, start_lookup-cases}
use skp.Dict.Calls.Find.{IsIn, Hit-IsIn}

module _ {E : Type 0} (hash_of : E → ℕ) where
  -- A node joins the end of the chain that its hash leads to.
  pub record Joined (which : Bool) (t t' : DictTable E) (id : ℕ) (entry : E) : Type 0 where
    pub sound : IsSound t'
    pub more : total t'.bucket ≡ suc (total t.bucket)
    pub placed : Placed hash_of which t'
    pub weights : (w : ℕ → E → ℕ) → weigh w t'.bucket ≡ weigh w t.bucket + w id entry
    pub same_size : t'.size ≡ t.size

  abbrev pub joined : Bool → DictTable E → ℕ → E → DictTable E
  joined which t id entry =
      let idx = bucket_index t (hash_of entry) in
      let u = insert_node_before t idx in
      let node : DictNode E = record {
        id = id;
        entry = entry;
        hvalue = hash_of entry;
        whichb = which;
        bindex = idx;
      } in
      store_chain u idx (chain_at u idx ++ (node ∷ []))

  pub joins :
      (which : Bool) (t : DictTable E) (id : ℕ) (entry : E) (k : ℕ)
      → IsSound t
      → Placed hash_of which t
      → k ≤ 31
      → t.size ≡ 2 ^ k
      → suc (total t.bucket) < u32_mod
      → Joined which t (joined which t id entry) id entry
  joins which t id entry k s p le e room =
      let idx = bucket_index t (hash_of entry) in
      let old = chain_at (insert_node_before t idx) idx in
      let same : old ≡ chain_at t idx = chain_at-insert_node_before t idx idx in
      let node : DictNode E = record {
        id = id;
        entry = entry;
        hvalue = hash_of entry;
        whichb = which;
        bindex = idx;
      } in
      let lt : idx < t.size = bucket_index-lt t (hash_of entry) k le e in
      let in_range : idx < length t.bucket = omega (arith, lt, s.sized) in
      let longer : length (old ++ (node ∷ [])) ≡ suc (length (chain_at t idx)) =
        length-append old (node ∷ []) ∙ omega (arith, ap length same) in
      let kept : AllIn hash_of which t.size idx old = rw same (p idx) in
      let (sound, more) = insert-IsSound t idx (old ++ (node ∷ [])) s lt longer room in
      record {
        sound = sound;
        more = more;
        placed = inserted-Placed hash_of which t idx (old ++ (node ∷ [])) in_range p (
            AllIn-append hash_of which t.size idx old (node ∷ []) kept
              (refl, bucket_index_lem t (hash_of entry), refl, refl, tt));
        weights = λ w. omega (
          arith,
          weigh-inserted w t idx (old ++ (node ∷ [])) in_range,
          weigh_chain-append w old (node ∷ []),
          ap (weigh_chain w) same,
        );
        same_size = size-inserted t idx (old ++ (node ∷ []));
      }

  -- The dictionary with that table in place of the one that the search ended in.
  pub store-Good :
      (d : Dict E) (b : Bool) (id : ℕ) (entry : E)
      → Good hash_of d
      → is_rehashing d ≡ b
      → suc (whole d) < u32_mod
      → let d' = store_table d b (joined (side d b) (table_at d b) id entry) in
        Good hash_of d' × ((w : ℕ → E → ℕ) → weight w d' ≡ weight w d + w id entry)
  store-Good d false id entry g r room = elim g.valid [
    | inl v ↦
        let j =
          joins d.which d.active id entry v.bits v.active g.placed.active v.bits_le v.size
            (omega (arith, room)) in
        (
          record {
            valid = inl (record {
              is = v.is;
              active = j.sound;
              bits = v.bits;
              bits_le = v.bits_le;
              size = j.same_size ∙ v.size;
              other = v.other;
            });
            placed = record { active = j.placed; other = g.placed.other };
            init = g.init;
          },
          λ w. omega (arith, j.weights w),
        )
    | inr (from, v) ↦ absurd (true≢false (sym (under_way d v.is) ∙ r))
  ]
  store-Good d true id entry g r room = elim g.valid [
    | inl v ↦ absurd (true≢false (sym r ∙ Idle-says d v))
    | inr (from, v) ↦
        let j =
          joins (not d.which) d.rehash id entry v.tables.bits v.tables.other g.placed.other
            v.tables.bits_le v.tables.other_size (omega (arith, room)) in
        (
          record {
            valid = inr (
              from,
              record {
                is = v.is;
                tables = record {
                  active = v.tables.active;
                  other = j.sound;
                  fits = omega (arith, room, j.more);
                  bits = v.tables.bits;
                  bits_le = v.tables.bits_le;
                  other_size = j.same_size ∙ v.tables.other_size;
                };
                behind = v.behind;
                from_le = v.from_le;
              },
            );
            placed = record { active = g.placed.active; other = j.placed };
            init = g.init;
          },
          λ w. omega (arith, j.weights w),
        )
  ]

module _ {K E : Type 0} {ops : DictOps K E} (keyed : Keyed ops) where
  link_joined :
      (d : Dict E) (k : K) (b : Bool) (id : ℕ) (entry : E)
      → link_node ops d (look ops (table_at d b) (keyed.hash_of entry) k b) id entry
        ≡ store_table d b (joined keyed.hash_of (side d b) (table_at d b) id entry)
  unfolding link_node look
  link_joined d k true id entry = refl
  link_joined d k false id entry = refl

  module _ (allocated : Bool) (d d1 d2 : Dict E) (k : K) (id : ℕ) (entry : E) (more : Bool)
      (l : Lookup E) (checked : dict_check_rehashing d ≡ some (more, d1))
      (resized : (resize_if_needed allocated d1 true).1 ≡ d2)
      (searched : start_lookup ops d2 k ≡ l) where
    -- what follows the search, and what follows the check
    abbrev with_node :
        Dict E → Lookup E → Option (DictNode E) → Option (Option (DictNode E) × Dict E)
    with_node d' l' (some old) = some (some old, d')
    with_node d' l' none = some (none, link_node ops d' l' id entry)

    abbrev in_dict : Dict E → Option (Option (DictNode E) × Dict E)
    in_dict d' = with_node d' (start_lookup ops d' k) (start_lookup ops d' k).node

    abbrev with_check : Option (Bool × Dict E) → Option (Option (DictNode E) × Dict E)
    with_check none = none
    with_check (some r) = in_dict (resize_if_needed allocated r.1 true).1

    insert_steps : dict_insert ops allocated d k id entry ≡ with_node d2 l l.node
    unfolding dict_insert
    insert_steps =
        ap with_check checked
        ∙ ap in_dict resized
        ∙ ap (λ (x : Lookup E). with_node d2 x x.node) searched

  -- what an insertion may do
  abbrev pub Inserted : Dict E → Dict E → K → ℕ → E → Option (DictNode E) → Type 0
  Inserted d d' k id entry none =
      (occurrences keyed k d ≡ 0) × ((w : ℕ → E → ℕ) → weight w d' ≡ weight w d + w id entry)
  Inserted d d' k id entry (some old) =
      (keyed.matches old.entry k ≡ true) × IsIn old d × ((w : ℕ → E → ℕ) → weight w d' ≡ weight w d)

  -- An insertion into a dictionary between calls, for an entry that has the key, returns, whether or
  -- not there is memory for a larger table, if the nodes are fewer than 2 ^ 32 - 1. It leaves a dictionary
  -- between calls. If there is a node with the key, it returns one and keeps the nodes; if there is
  -- none, it returns NULL and adds the one node with this address and entry.
  pub dict_insert_refines :
      (allocated : Bool) (d : Dict E) (k : K) (id : ℕ) (entry : E)
      → Good keyed.hash_of d
      → suc (whole d) < u32_mod
      → keyed.matches entry k ≡ true
      → (r : Option (DictNode E)) × (d' : Dict E) × (dict_insert ops allocated d k id entry
          ≡ some (r, d'))
        × Good keyed.hash_of d'
        × Inserted d d' k id entry r
  dict_insert_refines allocated d k id entry g room m =
      let (d1, checked, g1, same1) = dict_check_rehashing-Good keyed.hash_of d g in
      let (d2, resized, g2, same2) = resize_if_needed-Good keyed.hash_of allocated d1 true g1 in
      let same = SameNodes-trans same1 same2 in
      let same_hits : occurrences keyed k d2 ≡ occurrences keyed k d =
        same.weights (hits keyed k) in
      elim (start_lookup-cases keyed d2 k g2) [
        | inl (b, old, h) ↦
            let isin : IsIn old d = λ w. omega (arith, Hit-IsIn keyed h w, same.weights w) in
            (
              some old,
              d2,
              insert_steps allocated d d1 d2 k id entry _ _ checked resized h.runs
                  ∙ ap (with_node allocated d d1 d2 k id entry _ _ checked resized h.runs d2 _)
                      h.node,
              g2,
              (h.found.same_key, isin, same.weights),
            )
        | inr (b, x) ↦
            let end : Lookup E = look ops (table_at d2 b) (ops.calc_hash k) k b in
            let at_hash : keyed.hash_of entry ≡ ops.calc_hash k = keyed.hashes entry k m in
            let linked =
              ap (λ h. link_node ops d2 (look ops (table_at d2 b) h k b) id entry) (sym at_hash)
              ∙ link_joined d2 k b id entry in
            let (good, weights) =
              store-Good keyed.hash_of d2 b id entry g2 x.rehashing
                (rw (SameNodes-whole same) room) in
            (
              none,
              store_table d2 b (joined keyed.hash_of (side d2 b) (table_at d2 b) id entry),
              insert_steps allocated d d1 d2 k id entry _ _ checked resized x.runs
                  ∙ ap (with_node allocated d d1 d2 k id entry _ _ checked resized x.runs d2 end)
                      x.node
                  ∙ ap (λ u. some (none, u)) linked,
              good,
              (
                sym same_hits ∙ x.nowhere,
                λ w. weights w ∙ ap (λ n. n + w id entry) (same.weights w),
              ),
            )
      ]
