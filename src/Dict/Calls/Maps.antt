-- ===== src/Dict/Calls/Maps.antt =====
-- The calls of src/adt/dict.c, one after another: the dictionary as a map.
use mathlib.Core.Path.{subst}
use skp.Common.{
  ℕ, suc, ◌+◌, ◌≤◌, ◌<◌, ◌≡◌, inl, inr, refl, sym, ap, ◌∙◌, Bool, true, Bool-cases, Option, none,
  some, List, [], ◌∷◌, ◌==◌, arith, if◌then◌else◌,
}
use skp.Common.Word.{u32_mod}
use skp.Dict.{Dict, DictNode, DictOps}
use skp.Dict.Keyed.{Keyed}
use skp.Dict.Table.Weigh.{weigh, weigh_chain}
use skp.Dict.Table.Keys.{hits}
use skp.Dict.Rehash.Keeps.{whole}
use skp.Dict.Rehash.Weights.{weight}
use skp.Dict.Rehash.Resize.{Good}
use skp.Dict.Calls.{dict_insert, dict_lookup, dict_lookup_remove}
use skp.Dict.Calls.Searching.{occurrences}
use skp.Dict.Calls.Find.{Answers, dict_lookup-Answers}
use skp.Dict.Calls.Insert.{Inserted, dict_insert_refines}
use skp.Dict.Calls.Remove.{Removed, dict_lookup_remove_refines}

module _ {E : Type 0} (v w : ℕ → E → ℕ) (below : (id : ℕ) (e : E) → v id e ≤ w id e) where
  weigh_chain_mono : (c : List (DictNode E)) → weigh_chain v c ≤ weigh_chain w c
  weigh_chain_mono [] = omega arith
  weigh_chain_mono (n ∷ c) = omega (arith, below n.id n.entry, weigh_chain_mono c)

  weigh_mono : (bs : List (List (DictNode E))) → weigh v bs ≤ weigh w bs
  unfolding weigh
  weigh_mono [] = omega arith
  weigh_mono (c ∷ bs) = omega (arith, weigh_chain_mono c, weigh_mono bs)

  -- Less for each node is less for the dictionary.
  weight_mono : (d : Dict E) → weight v d ≤ weight w d
  weight_mono d = omega (arith, weigh_mono d.active.bucket, weigh_mono d.rehash.bucket)

-- what a returned pair is equal to, the pair has
of_result :
    {R S : Type 0} (P : R → S → Type 0) {o : Option (R × S)} {r r' : R} {s s' : S}
    → o ≡ some (r', s')
    → o ≡ some (r, s)
    → P r' s'
    → P r s
of_result P {o} {r} {r'} {s} {s'} e f p =
    subst (λ (x : _ × _). P x.0 x.1) (ap (given (r, s)) (sym e ∙ f)) p
  where
    given : {A : Type 0} → A → Option A → A
    given a none = a
    given a (some x) = x

module _ {K E : Type 0} {ops : DictOps K E} (keyed : Keyed ops) where
  -- no key has two nodes
  abbrev pub IsMap : Dict E → Type 0
  IsMap d = (k : K) → occurrences keyed k d ≤ 1

  -- one for each node with the key at another address
  abbrev elsewhere : K → ℕ → ℕ → E → ℕ
  elsewhere k at id e = if id == at then 0 else hits keyed k id e

  -- keys that an entry has are equal keys
  same_hits :
      (e : E) (k k' : K) (d : Dict E)
      → keyed.matches e k ≡ true
      → keyed.matches e k' ≡ true
      → occurrences keyed k' d ≤ occurrences keyed k d
  same_hits e k k' d m m' =
      weight_mono (hits keyed k') (hits keyed k) (λ id x. ground (arith, keyed.alike e x k k' m m'))
        d

  -- A dictionary without two nodes of one key stays so in an insertion.
  pub dict_insert-IsMap :
      (allocated : Bool) (d d' : Dict E) (k : K) (id : ℕ) (entry : E) (r : Option (DictNode E))
      → Good keyed.hash_of d
      → suc (whole d) < u32_mod
      → keyed.matches entry k ≡ true
      → IsMap d
      → dict_insert ops allocated d k id entry ≡ some (r, d')
      → IsMap d'
  dict_insert-IsMap allocated d d' k id entry r g room m map h =
      let (r0, d0, runs, _, inserted) = dict_insert_refines keyed allocated d k id entry g room m in
      of_result (λ r d'. IsMap d') runs h (go r0 d0 inserted)
    where
      go : (r : Option (DictNode E)) (d' : Dict E) → Inserted keyed d d' k id entry r → IsMap d'
      go none d' (nowhere, weights) k' = elim (Bool-cases (keyed.matches entry k')) [
        | inl m' ↦
            let only : occurrences keyed k' d' ≡ occurrences keyed k' d + 1 =
              ground (arith, weights (hits keyed k'), m') in
            omega (arith, only, nowhere, same_hits entry k k' d m m')
        | inr m' ↦ ground (arith, weights (hits keyed k'), m', map k')
      ]
      go (some old) d' (_, _, weights) k' = omega (arith, weights (hits keyed k'), map k')

  -- After an insertion that returned NULL, `dict_lookup` finds the new node.
  pub dict_lookup-dict_insert :
      (allocated : Bool) (d d' : Dict E) (k : K) (id : ℕ) (entry : E)
      → Good keyed.hash_of d
      → suc (whole d) < u32_mod
      → keyed.matches entry k ≡ true
      → dict_insert ops allocated d k id entry ≡ some (none, d')
      → (n : DictNode E) × (dict_lookup ops d' k ≡ some n) × (n.id ≡ id)
  dict_lookup-dict_insert allocated d d' k id entry g room m h =
      let (r0, d0, runs, good, inserted) =
        dict_insert_refines keyed allocated d k id entry g room m in
      let (g', (nowhere, weights)) =
        of_result (λ r d'. Good keyed.hash_of d' × Inserted keyed d d' k id entry r) runs h
          (good, inserted) in
      go (dict_lookup ops d' k) refl (dict_lookup-Answers keyed d' k g') nowhere weights
    where
      go :
          (o : Option (DictNode E))
          → dict_lookup ops d' k ≡ o
          → Answers keyed d' k o
          → occurrences keyed k d ≡ 0
          → ((w : ℕ → E → ℕ) → weight w d' ≡ weight w d + w id entry)
          → (n : DictNode E) × (dict_lookup ops d' k ≡ some n) × (n.id ≡ id)
      go none e a nowhere weights =
          let more : occurrences keyed k d' ≡ occurrences keyed k d + 1 =
            ground (arith, weights (hits keyed k), m) in
          absurd (omega (arith, more, a))
      go (some n) e (has, isin) nowhere weights = (
        n,
        e,
        ground (
          arith,
          isin (elsewhere k id),
          weights (elsewhere k id),
          weight_mono (elsewhere k id) (hits keyed k) (λ i x. ground arith) d,
          nowhere,
          has,
        ),
      )

  -- After a removal from a dictionary without two nodes of one key, `dict_lookup` finds nothing.
  pub dict_lookup-dict_lookup_remove :
      (allocated : Bool) (d d' : Dict E) (k : K) (r : Option (DictNode E))
      → Good keyed.hash_of d
      → IsMap d
      → dict_lookup_remove ops allocated d k ≡ some (r, d')
      → dict_lookup ops d' k ≡ none
  dict_lookup-dict_lookup_remove allocated d d' k r g map h =
      let (r0, d0, runs, good, removed) = dict_lookup_remove_refines keyed allocated d k g in
      let (g', out) =
        of_result (λ r d'. Good keyed.hash_of d' × Removed keyed d d' k r) runs h (good, removed) in
      nothing (dict_lookup ops d' k) refl (dict_lookup-Answers keyed d' k g') (gone r out)
    where
      gone : (r : Option (DictNode E)) → Removed keyed d d' k r → occurrences keyed k d' ≡ 0
      gone none (nowhere, weights) = weights (hits keyed k) ∙ nowhere
      gone (some n) (has, weights) = ground (arith, weights (hits keyed k), has, map k)

      nothing :
          (o : Option (DictNode E))
          → dict_lookup ops d' k ≡ o
          → Answers keyed d' k o
          → occurrences keyed k d' ≡ 0
          → dict_lookup ops d' k ≡ none
      nothing none e a z = e
      nothing (some n) e (has, isin) z = absurd (ground (arith, isin (hits keyed k), has, z))
