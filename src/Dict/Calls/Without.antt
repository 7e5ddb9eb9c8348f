-- ===== src/Dict/Calls/Without.antt =====
-- A dictionary of src/adt/dict.c without a node that a search found.
use skp.Common.{
  ℕ, zero, suc, get_or, ◌+◌, ◌<◌, ◌≡◌, ◌≢◌, inl, inr, refl, sym, ap, ◌∙◌, Bool, true, false, not,
  List, [], ◌∷◌, arith, length,
}
use mathlib.Core.Bool.{true≢false}
use skp.Dict.{Dict, DictNode, DictTable, DictOps}
use skp.Dict.Keyed.{Keyed}
use skp.Dict.Table.{chain_at, store_chain, bucket_index, erase_node_after, erase_node}
use skp.Dict.Table.Sound.{IsSound, total, chain_at-erased_ne, erase-IsSound, size-erased}
use skp.Dict.Table.Weigh.{weigh, weigh_chain, weigh-erased, Placed, AllIn, erased-Placed}
use skp.Dict.Table.Keys.{against, FoundIn}
use skp.Dict.Rehash.Weights.{weight}
use skp.Dict.Rehash.Resize.{Good}
use skp.Dict.Calls.{table_at, store_table}
use skp.Dict.Calls.Searching.{Hit, Idle-says}

get_or-in_range :
    {A : Type 0} (bs : List (List A)) (i : ℕ) {n : ℕ}
    → length (get_or bs i []) ≡ suc n
    → i < length bs
get_or-in_range [] i e = absurd (omega (arith, e))
get_or-in_range (b ∷ bs) zero e = omega arith
get_or-in_range (b ∷ bs) (suc i) e = omega (arith, get_or-in_range bs i e)

module _ {E : Type 0} where
  -- An empty chain stays empty where a node leaves another.
  still_empty :
      (t : DictTable E) (i j : ℕ) (c : List (DictNode E))
      → chain_at t j ≡ []
      → IsSound t
      → length (chain_at t i) ≡ suc (length c)
      → chain_at (erase_node_after (store_chain t i c) i) j ≡ []
  still_empty t i j c empty s shorter =
      chain_at-erased_ne t i j c (get_or-in_range t.bucket i shorter) other ∙ empty
    where
      other : i ≢ j
      other e = absurd (omega (arith, shorter, ap length (ap (chain_at t) e ∙ empty)))

module _ {E : Type 0} (hash_of : E → ℕ) where
  -- Chain `i` lost its node `n`, and is now `c`.
  pub record Left (which : Bool) (t : DictTable E) (i : ℕ) (c : List (DictNode E)) (n : DictNode E)
      : Type 0 where
    pub sound : IsSound (erase_node_after (store_chain t i c) i)
    pub fewer : suc (total (erase_node_after (store_chain t i c) i).bucket) ≡ total t.bucket
    pub placed : Placed hash_of which (erase_node_after (store_chain t i c) i)
    pub weights :
        (w : ℕ → E → ℕ)
        → weigh w (erase_node_after (store_chain t i c) i).bucket + w n.id n.entry
          ≡ weigh w t.bucket
    pub same_size : (erase_node_after (store_chain t i c) i).size ≡ t.size

  pub leaves :
      (which : Bool) (t : DictTable E) (i : ℕ) (c : List (DictNode E)) (n : DictNode E)
      → IsSound t
      → Placed hash_of which t
      → i < t.size
      → length (chain_at t i) ≡ suc (length c)
      → AllIn hash_of which t.size i c
      → ((w : ℕ → E → ℕ) → weigh_chain w c + w n.id n.entry ≡ weigh_chain w (chain_at t i))
      → Left which t i c n
  leaves which t i c n s p lt shorter rest weights =
      let in_range : i < length t.bucket = omega (arith, lt, s.sized) in
      let (sound, fewer) = erase-IsSound t i c s lt shorter in
      record {
        sound = sound;
        fewer = fewer;
        placed = erased-Placed hash_of which t i c in_range p rest;
        weights = λ w. omega (arith, weigh-erased w t i c in_range, weights w);
        same_size = size-erased t i c in_range;
      }

module _ {K E : Type 0} {ops : DictOps K E} (keyed : Keyed ops) where
  -- the chain that the key leads to, without the node that was found
  abbrev index : DictTable E → K → ℕ
  index t k = bucket_index t (ops.calc_hash k)

  abbrev left : DictTable E → K → List (DictNode E)
  left t k = erase_node (against keyed k) (chain_at t (index t k))

  -- The dictionary without the node that a search found.
  abbrev pub without : Dict E → Bool → K → Dict E
  without d b k =
      let t = table_at d b in
      store_table d b (erase_node_after (store_chain t (index t k) (left t k)) (index t k))

  leave_found :
      (which : Bool) (t : DictTable E) (k : K) (n : DictNode E)
      → IsSound t
      → Placed keyed.hash_of which t
      → FoundIn keyed k which t.size (index t k) (chain_at t (index t k)) n
      → Left keyed.hash_of which t (index t k) (left t k) n
  leave_found which t k n s p f =
      leaves keyed.hash_of which t (index t k) (left t k) n s p
        (omega (arith, get_or-in_range t.bucket (index t k) f.shorter, s.sized)) f.shorter f.rest
        f.weights

  pub without-Good :
      (d : Dict E) (b : Bool) (k : K) (n : DictNode E)
      → Good keyed.hash_of d
      → Hit keyed d k b n
      → Good keyed.hash_of (without d b k)
        × ((w : ℕ → E → ℕ) → weight w (without d b k) + w n.id n.entry ≡ weight w d)
  without-Good d false k n g h = elim g.valid [
    | inl v ↦
        let j = leave_found d.which d.active k n v.active g.placed.active h.found in
        (
          record {
            valid = inl (record {
              is = v.is;
              active = j.sound;
              bits = v.bits;
              bits_le = v.bits_le;
              size = j.same_size ∙ v.size;
              other = v.other;
            });
            placed = record { active = j.placed; other = g.placed.other };
            init = g.init;
          },
          λ w. omega (arith, j.weights w),
        )
    | inr (from, v) ↦
        let j = leave_found d.which d.active k n v.tables.active g.placed.active h.found in
        (
          record {
            valid = inr (
              from,
              record {
                is = v.is;
                tables = record {
                  active = j.sound;
                  other = v.tables.other;
                  fits = omega (arith, v.tables.fits, j.fewer);
                  bits = v.tables.bits;
                  bits_le = v.tables.bits_le;
                  other_size = v.tables.other_size;
                };
                behind = λ i lt.
                    still_empty d.active (index d.active k) i (left d.active k) (v.behind i lt)
                      v.tables.active h.found.shorter;
                from_le = omega (arith, v.from_le, j.same_size);
              },
            );
            placed = record { active = j.placed; other = g.placed.other };
            init = g.init;
          },
          λ w. omega (arith, j.weights w),
        )
  ]
  without-Good d true k n g h = elim g.valid [
    | inl v ↦ absurd (true≢false (sym (h.rehashing refl) ∙ Idle-says d v))
    | inr (from, v) ↦
        let j = leave_found (not d.which) d.rehash k n v.tables.other g.placed.other h.found in
        (
          record {
            valid = inr (
              from,
              record {
                is = v.is;
                tables = record {
                  active = v.tables.active;
                  other = j.sound;
                  fits = omega (arith, v.tables.fits, j.fewer);
                  bits = v.tables.bits;
                  bits_le = v.tables.bits_le;
                  other_size = j.same_size ∙ v.tables.other_size;
                };
                behind = v.behind;
                from_le = v.from_le;
              },
            );
            placed = record { active = g.placed.active; other = j.placed };
            init = g.init;
          },
          λ w. omega (arith, j.weights w),
        )
  ]
