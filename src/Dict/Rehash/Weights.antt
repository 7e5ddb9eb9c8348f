-- ===== src/Dict/Rehash/Weights.antt =====
-- The incremental rehash of src/adt/dict.c loses no node, invents none, and leaves each where its hash
-- leads.
use skp.Common.{ℕ, ◌+◌, ◌<◌, ◌≡◌, refl, sym, ap, ◌∙◌, not, List, [], ◌∷◌, arith, length}
use skp.Dict.{Dict, DictNode}
use skp.Dict.Table.{chain_at, bucket_index, insert_node_before}
use skp.Dict.Table.Sound.{total, bucket_index-lt, chain_at-insert_node_before}
use skp.Dict.Table.Fresh.{released, total_nil}
use skp.Dict.Table.Weigh.{
  weigh, weigh_chain, weigh_empty, weigh_ones, weigh-erased, weigh-inserted, AllIn, Placed,
  erased-Placed, inserted-Placed, bucket_index_lem,
}
use skp.Dict.Rehash.{move_node, bucket_rehash, finish_rehash}
use skp.Dict.Rehash.Keeps.{Tables, whole, move_node-Shifted}

module _ {E : Type 0} where
  -- the sum of a weight over the nodes of both tables
  abbrev pub weight : (ℕ → E → ℕ) → Dict E → ℕ
  weight w d = weigh w d.active.bucket + weigh w d.rehash.bucket

  -- The same nodes, in a dictionary that was set up alike.
  pub record SameNodes (d d' : Dict E) : Type 0 where
    pub weights : (w : ℕ → E → ℕ) → weight w d' ≡ weight w d
    pub same_init : d'.init_size ≡ d.init_size

  pub SameNodes-refl : (d : Dict E) → SameNodes d d
  SameNodes-refl d = record { weights = λ w. refl; same_init = refl }

  -- the nodes, counted by weight
  pub weight_ones : (d : Dict E) → weight (λ id entry. 1) d ≡ whole d
  weight_ones d = omega (arith, weigh_ones d.active.bucket, weigh_ones d.rehash.bucket)

  pub SameNodes-whole : {d e : Dict E} → SameNodes d e → whole e ≡ whole d
  SameNodes-whole {d} {e} s = sym (weight_ones e) ∙ s.weights (λ id entry. 1) ∙ weight_ones d

  pub SameNodes-trans : {d e f : Dict E} → SameNodes d e → SameNodes e f → SameNodes d f
  SameNodes-trans p q = record {
    weights = λ w. q.weights w ∙ p.weights w;
    same_init = q.same_init ∙ p.same_init;
  }

  pub move_node-SameNodes :
      (d : Dict E) (node : DictNode E) (rest : List (DictNode E)) (bit : ℕ)
      → Tables d
      → bit < d.active.size
      → chain_at d.active bit ≡ node ∷ rest
      → SameNodes d (move_node d node rest bit)
  unfolding move_node
  move_node-SameNodes d node rest bit v lt e =
      let in_range : bit < length d.active.bucket = omega (arith, v.active.sized, lt) in
      let idx = bucket_index d.rehash node.hvalue in
      let moved : DictNode E = record node { bindex = idx; whichb = not d.which } in
      let old = chain_at (insert_node_before d.rehash idx) idx in
      let other_range : idx < length d.rehash.bucket = omega (
        arith,
        v.other.sized,
        bucket_index-lt d.rehash node.hvalue v.bits v.bits_le v.other_size,
      ) in
      record {
        weights = λ w. omega (
          arith,
          weigh-erased w d.active bit rest in_range,
          weigh-inserted w d.rehash idx (moved ∷ old) other_range,
          ap (weigh_chain w) e,
          ap (weigh_chain w) (chain_at-insert_node_before d.rehash idx idx),
        );
        same_init = refl;
      }

  pub bucket_rehash-SameNodes :
      (chain : List (DictNode E)) (d : Dict E) (bit : ℕ)
      → Tables d
      → bit < d.active.size
      → chain_at d.active bit ≡ chain
      → SameNodes d (bucket_rehash d chain bit)
  unfolding bucket_rehash
  bucket_rehash-SameNodes [] d bit v lt e = SameNodes-refl d
  bucket_rehash-SameNodes (node ∷ rest) d bit v lt e =
      let one = move_node-Shifted d node rest bit v lt e in
      SameNodes-trans (move_node-SameNodes d node rest bit v lt e) (
        bucket_rehash-SameNodes rest (move_node d node rest bit) bit one.tables
          (omega (arith, lt, one.same_size)) one.chain)

  weigh_nil : (w : ℕ → E → ℕ) → weigh w [] ≡ 0
  weigh_nil w = weigh_empty w [] (total_nil E)

  pub finish_rehash-SameNodes :
      (d : Dict E) → total d.active.bucket ≡ 0 → SameNodes d (finish_rehash d)
  unfolding finish_rehash
  finish_rehash-SameNodes d e = record {
    weights =
        λ w. omega (arith, weigh_empty w d.active.bucket e, ap (weigh w) (released E), weigh_nil w);
    same_init = refl;
  }

  -- with no node in the other table
  pub weight-alone :
      (w : ℕ → E → ℕ) (d : Dict E) → d.rehash.bucket ≡ [] → weight w d ≡ weigh w d.active.bucket
  weight-alone w d e = omega (arith, ap (weigh w) e, weigh_nil w)

module _ {E : Type 0} (hash_of : E → ℕ) where
  pub record Placements (d : Dict E) : Type 0 where
    pub active : Placed hash_of d.which d.active
    pub other : Placed hash_of (not d.which) d.rehash

  move_node-Placements :
      (d : Dict E) (node : DictNode E) (rest : List (DictNode E)) (bit : ℕ)
      → Tables d
      → bit < d.active.size
      → chain_at d.active bit ≡ node ∷ rest
      → Placements d
      → Placements (move_node d node rest bit)
        × SameNodes d (move_node d node rest bit)
        × ((move_node d node rest bit).which ≡ d.which)
  unfolding move_node
  move_node-Placements d node rest bit v lt e p =
      let in_range : bit < length d.active.bucket = omega (arith, v.active.sized, lt) in
      let idx = bucket_index d.rehash node.hvalue in
      let moved : DictNode E = record node { bindex = idx; whichb = not d.which } in
      let old = chain_at (insert_node_before d.rehash idx) idx in
      let other_range : idx < length d.rehash.bucket = omega (
        arith,
        v.other.sized,
        bucket_index-lt d.rehash node.hvalue v.bits v.bits_le v.other_size,
      ) in
      let here : AllIn hash_of d.which d.active.size bit (node ∷ rest) = rw e at (p.active bit) in
      let kept : AllIn hash_of (not d.which) d.rehash.size idx old =
        rw (chain_at-insert_node_before d.rehash idx idx) (p.other idx) in
      (
        record {
          active = erased-Placed hash_of d.which d.active bit rest in_range p.active here.4;
          other =
              inserted-Placed hash_of (not d.which) d.rehash idx (moved ∷ old) other_range p.other
                (here.0, bucket_index_lem d.rehash node.hvalue, refl, refl, kept);
        },
        move_node-SameNodes d node rest bit v lt e,
        refl,
      )

  pub bucket_rehash-Placements :
      (chain : List (DictNode E)) (d : Dict E) (bit : ℕ)
      → Tables d
      → bit < d.active.size
      → chain_at d.active bit ≡ chain
      → Placements d
      → Placements (bucket_rehash d chain bit) × SameNodes d (bucket_rehash d chain bit)
  unfolding bucket_rehash
  bucket_rehash-Placements [] d bit v lt e p = (p, SameNodes-refl d)
  bucket_rehash-Placements (node ∷ rest) d bit v lt e p =
      let one = move_node-Shifted d node rest bit v lt e in
      let (placed, same, _) = move_node-Placements d node rest bit v lt e p in
      let (all, same_all) =
        bucket_rehash-Placements rest (move_node d node rest bit) bit one.tables
          (omega (arith, lt, one.same_size)) one.chain placed in
      (all, SameNodes-trans same same_all)

  pub finish_rehash-Placements :
      (d : Dict E)
      → total d.active.bucket ≡ 0
      → Placements d
      → Placements (finish_rehash d) × SameNodes d (finish_rehash d)
  unfolding finish_rehash
  finish_rehash-Placements d e p =
      (record { active = p.other; other = λ i. rw (released E) tt }, finish_rehash-SameNodes d e)
