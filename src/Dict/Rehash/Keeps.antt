-- ===== src/Dict/Rehash/Keeps.antt =====
-- The incremental rehash of src/adt/dict.c keeps its tables and every node, and comes to an end.
use skp.Common.{
  ℕ, suc, ◌+◌, ◌^◌, ◌≤◌, ◌<◌, ◌≡◌, ◌≢◌, refl, ap, ◌∙◌, not, List, [], ◌∷◌, arith, length,
}
use skp.Common.Word.{u32_mod}
use skp.Dict.{Dict, DictNode}
use skp.Dict.Table.{chain_at, bucket_index, insert_node_before}
use skp.Dict.Table.Sound.{
  IsSound, total, chain_at-erased, chain_at-erased_ne, size-erased, size-inserted,
  chain_at-insert_node_before, bucket_index-lt, erase-IsSound, insert-IsSound,
}
use skp.Dict.Rehash.{move_node, bucket_rehash}

module _ {E : Type 0} where
  -- the nodes of both tables
  abbrev pub whole : Dict E → ℕ
  whole d = total d.active.bucket + total d.rehash.bucket

  -- Both tables are sound, and the other one has a size that a hash is masked by.
  pub record Tables (d : Dict E) : Type 0 where
    pub active : IsSound d.active
    pub other : IsSound d.rehash
    pub fits : whole d < u32_mod
    pub bits : ℕ
    pub bits_le : bits ≤ 31
    pub other_size : d.rehash.size ≡ 2 ^ bits

  -- What moving nodes out of chain `bit` leaves in place.
  pub record Shifted (bit : ℕ) (left : List (DictNode E)) (d d' : Dict E) : Type 0 where
    pub tables : Tables d'
    pub same_whole : whole d' ≡ whole d
    pub chain : chain_at d'.active bit ≡ left
    pub others : (j : ℕ) → bit ≢ j → chain_at d'.active j ≡ chain_at d.active j
    pub same_size : d'.active.size ≡ d.active.size
    pub same_idx : d'.rehashidx ≡ d.rehashidx

  pub move_node-Shifted :
      (d : Dict E) (node : DictNode E) (rest : List (DictNode E)) (bit : ℕ)
      → Tables d
      → bit < d.active.size
      → chain_at d.active bit ≡ node ∷ rest
      → Shifted bit rest d (move_node d node rest bit)
  unfolding move_node
  move_node-Shifted d node rest bit v lt e =
      let in_range : bit < length d.active.bucket = omega (arith, v.active.sized, lt) in
      let (active, fewer) = erase-IsSound d.active bit rest v.active lt (ap length e) in
      let idx = bucket_index d.rehash node.hvalue in
      let moved : DictNode E = record node { bindex = idx; whichb = not d.which } in
      let (other, more) =
        insert-IsSound d.rehash idx (moved ∷ chain_at (insert_node_before d.rehash idx) idx) v.other
          (bucket_index-lt d.rehash node.hvalue v.bits v.bits_le v.other_size)
          (ap (λ (c : List (DictNode E)). suc (length c))
            (chain_at-insert_node_before d.rehash idx idx))
          (omega (arith, v.fits, fewer)) in
      record {
        tables = record {
          active = active;
          other = other;
          fits = omega (arith, v.fits, fewer, more);
          bits = v.bits;
          bits_le = v.bits_le;
          other_size =
              size-inserted d.rehash idx (moved ∷ chain_at (insert_node_before d.rehash idx) idx)
              ∙ v.other_size;
        };
        same_whole = omega (arith, fewer, more);
        chain = chain_at-erased d.active bit rest in_range;
        others = λ j ne. chain_at-erased_ne d.active bit j rest in_range ne;
        same_size = size-erased d.active bit rest in_range;
        same_idx = refl;
      }

  pub bucket_rehash-Shifted :
      (chain : List (DictNode E)) (d : Dict E) (bit : ℕ)
      → Tables d
      → bit < d.active.size
      → chain_at d.active bit ≡ chain
      → Shifted bit [] d (bucket_rehash d chain bit)
  unfolding bucket_rehash
  bucket_rehash-Shifted [] d bit v lt e = record {
    tables = v;
    same_whole = refl;
    chain = e;
    others = λ j ne. refl;
    same_size = refl;
    same_idx = refl;
  }
  bucket_rehash-Shifted (node ∷ rest) d bit v lt e =
      let one = move_node-Shifted d node rest bit v lt e in
      let all =
        bucket_rehash-Shifted rest (move_node d node rest bit) bit one.tables
          (omega (arith, lt, one.same_size)) one.chain in
      record {
        tables = all.tables;
        same_whole = all.same_whole ∙ one.same_whole;
        chain = all.chain;
        others = λ j ne. all.others j ne ∙ one.others j ne;
        same_size = all.same_size ∙ one.same_size;
        same_idx = all.same_idx ∙ one.same_idx;
      }
