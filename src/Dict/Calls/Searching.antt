-- ===== src/Dict/Calls/Searching.antt =====
-- `dict_lookup` of src/adt/dict.c, and the search that insertion and removal make.
use skp.Common.{
  ℕ, ◌≡◌, ◌⊎◌, inl, inr, refl, ap, ◌∙◌, Bool, true, false, not, Option, none, some, Option-cases,
  arith, if◌then◌else◌,
}
use skp.Dict.{Dict, DictNode, DictOps, is_rehashing}
use skp.Dict.Keyed.{Keyed}
use skp.Dict.Table.{bucket_index, chain_at}
use skp.Dict.Table.Sound.{total}
use skp.Dict.Table.Fresh.{total_nil}
use skp.Dict.Table.Weigh.{weigh, weigh_empty, Placed}
use skp.Dict.Table.Keys.{hits, FoundIn, chain_some, table_none}
use skp.Dict.Rehash.Progress.{Idle, under_way}
use skp.Dict.Rehash.Weights.{weight}
use skp.Dict.Rehash.Resize.{Good}
use skp.Dict.Calls.{Lookup, look, start_lookup, table_at}

-- the table that a node of the active or the other table has on it
abbrev pub side : {E : Type 0} → Dict E → Bool → Bool
side d true = not d.which
side d false = d.which

module _ {E : Type 0} where
  Idle-other : (d : Dict E) (w : ℕ → E → ℕ) → Idle d → weigh w d.rehash.bucket ≡ 0
  Idle-other d w v = weigh_empty w d.rehash.bucket (ap total v.other ∙ total_nil E)

  pub Idle-says : (d : Dict E) → Idle d → is_rehashing d ≡ false
  Idle-says d v = rw v.is refl

module _ {K E : Type 0} {ops : DictOps K E} (keyed : Keyed ops) where
  -- how many nodes have a key
  abbrev pub occurrences : K → Dict E → ℕ
  occurrences k d = weight (hits keyed k) d

  -- A search ends in the active table or, during a rehash, in the other one.
  pub record Hit (d : Dict E) (k : K) (b : Bool) (n : DictNode E) : Type 0 where
    pub runs : start_lookup ops d k ≡ look ops (table_at d b) (ops.calc_hash k) k b
    pub node : (look ops (table_at d b) (ops.calc_hash k) k b).node ≡ some n
    pub rehashing : b ≡ true → is_rehashing d ≡ true
    pub found :
        FoundIn keyed k
          (side d b)
          (table_at d b).size
          (bucket_index (table_at d b) (ops.calc_hash k))
          (chain_at (table_at d b) (bucket_index (table_at d b) (ops.calc_hash k)))
          n

  pub record Miss (d : Dict E) (k : K) (b : Bool) : Type 0 where
    pub runs : start_lookup ops d k ≡ look ops (table_at d b) (ops.calc_hash k) k b
    pub node : (look ops (table_at d b) (ops.calc_hash k) k b).node ≡ none
    pub rehashing : is_rehashing d ≡ b
    pub nowhere : occurrences k d ≡ 0

  module _ (d : Dict E) (k : K) where
    -- the search in one of the tables
    abbrev at : Bool → Lookup E
    at b = look ops (table_at d b) (ops.calc_hash k) k b

    -- what the result of the first search decides
    abbrev chosen : Option (DictNode E) → Lookup E
    chosen (some n) = at false
    chosen none = if is_rehashing d then at true else at false

    first_hit : (n : DictNode E) → (at false).node ≡ some n → start_lookup ops d k ≡ at false
    unfolding start_lookup look
    first_hit n e = ap chosen e

    first_miss :
        (b : Bool) → (at false).node ≡ none → is_rehashing d ≡ b → start_lookup ops d k ≡ at b
    unfolding start_lookup look
    first_miss true e r = ap chosen e ∙ ap (λ (b : Bool). if b then at true else at false) r
    first_miss false e r = ap chosen e ∙ ap (λ (b : Bool). if b then at true else at false) r

    hit_at :
        (b : Bool) (n : DictNode E)
        → Placed keyed.hash_of (side d b) (table_at d b)
        → (at b).node ≡ some n
        → FoundIn keyed k
            (side d b)
            (table_at d b).size
            (bucket_index (table_at d b) (ops.calc_hash k))
            (chain_at (table_at d b) (bucket_index (table_at d b) (ops.calc_hash k)))
            n
    unfolding look
    hit_at b n p e = chain_some keyed k (side d b) (table_at d b).size _ _ n (p _) e

    miss_at :
        (b : Bool)
        → Placed keyed.hash_of (side d b) (table_at d b)
        → (at b).node ≡ none
        → weigh (hits keyed k) (table_at d b).bucket ≡ 0
    unfolding look
    miss_at b p e = table_none keyed k (side d b) (table_at d b) p e

  -- In a good dictionary a search finds a node with the key, or there is none.
  pub start_lookup-cases :
      (d : Dict E) (k : K)
      → Good keyed.hash_of d
      → ((b : Bool) × (n : DictNode E) × Hit d k b n) ⊎ ((b : Bool) × Miss d k b)
  start_lookup-cases d k g = elim (Option-cases (at d k false).node) [
    | inr (n, e) ↦ inl (
      false,
      n,
      record {
        runs = first_hit d k n e;
        node = e;
        rehashing = λ h. cc;
        found = hit_at d k false n g.placed.active e;
      },
    )
    | inl e ↦ elim g.valid [
      | inl v ↦ inr (
        false,
        record {
          runs = first_miss d k false e (Idle-says d v);
          node = e;
          rehashing = Idle-says d v;
          nowhere =
              omega (arith, miss_at d k false g.placed.active e, Idle-other d (hits keyed k) v);
        },
      )
      | inr (from, v) ↦ elim (Option-cases (at d k true).node) [
        | inr (n, e') ↦ inl (
          true,
          n,
          record {
            runs = first_miss d k true e (under_way d v.is);
            node = e';
            rehashing = λ h. under_way d v.is;
            found = hit_at d k true n g.placed.other e';
          },
        )
        | inl e' ↦ inr (
          true,
          record {
            runs = first_miss d k true e (under_way d v.is);
            node = e';
            rehashing = under_way d v.is;
            nowhere =
                omega
                  (arith, miss_at d k false g.placed.active e, miss_at d k true g.placed.other e');
          },
        )
      ]
    ]
  ]
