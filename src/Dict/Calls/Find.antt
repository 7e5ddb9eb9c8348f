-- ===== src/Dict/Calls/Find.antt =====
-- `dict_nodes` and `dict_lookup` of src/adt/dict.c, against the nodes that there are.
use skp.Common.{
  ℕ, ◌≤◌, ◌≡◌, ◌≢◌, inl, inr, sym, ap, ◌∙◌, Bool, true, false, Option, none, some, arith,
  ℕ_discrete,
}
use skp.Dict.{Dict, DictNode, DictOps}
use skp.Dict.Keyed.{Keyed}
use skp.Dict.Table.{bucket_index}
use skp.Dict.Table.Sound.{total}
use skp.Dict.Table.Fresh.{total_nil}
use skp.Dict.Table.Weigh.{weigh_empty, weigh_chain-le}
use skp.Dict.Table.Keys.{hits}
use skp.Dict.Rehash.Keeps.{whole}
use skp.Dict.Rehash.Progress.{IsValid}
use skp.Dict.Rehash.Weights.{weight}
use skp.Dict.Rehash.Resize.{Good}
use skp.Dict.Calls.{Lookup, start_lookup, dict_lookup, dict_nodes}
use skp.Dict.Calls.Searching.{occurrences, Hit, start_lookup-cases}

module _ {E : Type 0} where
  -- The counters add up to the nodes of both tables, without overflow.
  pub dict_nodes-whole : (d : Dict E) → IsValid d → dict_nodes d ≡ whole d
  unfolding dict_nodes
  dict_nodes-whole d (inl v) =
      rw v.is (omega (arith, v.active.counts, ap total v.other ∙ total_nil E))
  dict_nodes-whole d (inr (from, v)) =
      rw (v.is) (omega (arith, v.tables.active.counts, v.tables.other.counts, v.tables.fits))

  -- A node that is in the dictionary weighs no more than the dictionary does.
  abbrev pub IsIn : DictNode E → Dict E → Type 0
  IsIn n d = (w : ℕ → E → ℕ) → w n.id n.entry ≤ weight w d

module _ {K E : Type 0} {ops : DictOps K E} (keyed : Keyed ops) where
  -- what a search may answer
  abbrev pub Answers : Dict E → K → Option (DictNode E) → Type 0
  Answers d k none = occurrences keyed k d ≡ 0
  Answers d k (some n) = (keyed.matches n.entry k ≡ true) × IsIn n d

  pub Hit-IsIn : {d : Dict E} {k : K} {b : Bool} {n : DictNode E} → Hit keyed d k b n → IsIn n d
  Hit-IsIn {d} {k} {b = true} h w = omega (
    arith,
    h.found.weights w,
    weigh_chain-le w d.rehash.bucket (bucket_index d.rehash (ops.calc_hash k)),
  )
  Hit-IsIn {d} {k} {b = false} h w = omega (
    arith,
    h.found.weights w,
    weigh_chain-le w d.active.bucket (bucket_index d.active (ops.calc_hash k)),
  )

  searches :
      (d : Dict E) (k : K) → dict_nodes d ≢ 0 → dict_lookup ops d k ≡ (start_lookup ops d k).node
  unfolding dict_lookup
  searches d k ne = ground arith

  gives_up : (d : Dict E) (k : K) → dict_nodes d ≡ 0 → dict_lookup ops d k ≡ none
  unfolding dict_lookup
  gives_up d k e = ground arith

  pub nowhere : (d : Dict E) (k : K) → whole d ≡ 0 → occurrences keyed k d ≡ 0
  nowhere d k e = omega (
    arith,
    weigh_empty (hits keyed k) d.active.bucket (omega arith),
    weigh_empty (hits keyed k) d.rehash.bucket (omega arith),
  )

  -- In a dictionary between calls, `dict_lookup` finds a node of the dictionary that has the key, and
  -- returns NULL exactly when there is none.
  pub dict_lookup-Answers :
      (d : Dict E) (k : K) → Good keyed.hash_of d → Answers d k (dict_lookup ops d k)
  dict_lookup-Answers d k g = elim (ℕ_discrete (dict_nodes d) 0) [
    | yes e ↦ rw (gives_up d k e) (nowhere d k (sym (dict_nodes-whole d g.valid) ∙ e))
    | no ne ↦ elim (start_lookup-cases keyed d k g) [
      | inl (b, n, h) ↦
          rw (searches d k ne ∙ ap (λ (l : Lookup E). l.node) h.runs ∙ h.node)
            (h.found.same_key, Hit-IsIn h)
      | inr (b, m) ↦ rw (searches d k ne ∙ ap (λ (l : Lookup E). l.node) m.runs ∙ m.node) m.nowhere
    ]
  ]
