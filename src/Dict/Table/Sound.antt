-- ===== src/Dict/Table/Sound.antt =====
-- The invariant of one table of src/adt/dict.c: the counter is the number of nodes, and a bit of the
-- map is set exactly where a chain is not empty.
use Prim.Native.Nat.{bit_and}
use native.Mathlib.Nat.{mod-lt, pow-le-pow_right}
use mathlib.Core.Path.{subst}
use skp.Common.{
  ◌^◌, ◌-◌, ◌≢◌, ℕ, zero, suc, ◌+◌, ◌≤◌, ◌<◌, ◌≡◌, refl, sym, ap, ◌∙◌, Bool, true, false, not,
  Bool-cases, inl, inr, List, [], ◌∷◌, arith, length, length-set, get_or, get_or-set, set,
  if◌then◌else◌, ℕ_discrete,
}
use skp.Common.Bits.{bit_and_mask, pow_pos}
use skp.Common.Word.{u32_mod, add32, sub32}
use skp.Dict.{DictNode, DictTable}
use skp.Dict.Table.{
  bucket_index, bucket_empty, chain_at, store_chain, erase_node_after, insert_node_before,
}

module _ {E : Type 0} where
  -- how many nodes the chains have together
  unfoldable pub total : List (List (DictNode E)) → ℕ
  total [] = 0
  total (c ∷ cs) = length c + total cs

  abbrev pub Marks : List (List (DictNode E)) → List Bool → Type 0
  Marks bs bits =
      (i : ℕ) → i < length bs → get_or bits i false ≡ not (bucket_empty (get_or bs i []))

  pub record IsSound (t : DictTable E) : Type 0 where
    pub sized : length t.bucket ≡ t.size
    pub mapped : length t.mapping ≡ t.size
    pub marks : Marks t.bucket t.mapping
    pub counts : t.nr_nodes ≡ total t.bucket
    pub fits : total t.bucket < u32_mod

  pub total-set :
      (bs : List (List (DictNode E))) (i : ℕ) (c : List (DictNode E))
      → i < length bs
      → total (set bs i c) + length (get_or bs i []) ≡ total bs + length c
  unfolding total
  total-set [] i c h = absurd (omega arith)
  total-set (b ∷ bs) zero c h = omega arith
  total-set (b ∷ bs) (suc i) c h = omega (arith, total-set bs i c (omega arith))

  Marks-set :
      (bs : List (List (DictNode E))) (bits : List Bool) (i : ℕ) (c : List (DictNode E)) (b : Bool)
      → Marks bs bits
      → i < length bs
      → i < length bits
      → b ≡ not (bucket_empty c)
      → Marks (set bs i c) (set bits i b)
  Marks-set bs bits i c b m h h' e j lt = elim (ℕ_discrete i j) [
    | yes p ↦ ground (arith, get_or-set bs i j c [] h, get_or-set bits i j b false h', e, p)
    | no p ↦
        get_or-set bits i j b false h'
        ∙ ground (arith, get_or-set bs i j c [] h, m j (omega (arith, lt, length-set bs i c)), p)
  ]

  Marks-keep :
      (bs : List (List (DictNode E))) (bits : List Bool) (i : ℕ) (c : List (DictNode E))
      → Marks bs bits
      → i < length bs
      → bucket_empty c ≡ bucket_empty (get_or bs i [])
      → Marks (set bs i c) bits
  Marks-keep bs bits i c m h e j lt = elim (ℕ_discrete i j) [
    | yes p ↦
        m j (omega (arith, lt, length-set bs i c))
        ∙ ground (arith, get_or-set bs i j c [] h, e, p, ap (λ k. get_or bs k []) p)
    | no p ↦
        m j (omega (arith, lt, length-set bs i c)) ∙ ground (arith, get_or-set bs i j c [] h, p)
  ]

  same :
      (t : DictTable E) (i : ℕ) (c : List (DictNode E))
      → i < length t.bucket
      → get_or (set t.bucket i c) i [] ≡ c
  same t i c h = ground (arith, get_or-set t.bucket i i c [] h)

  -- the two updates, with the chain that is stored at the same place
  pub erased :
      (t : DictTable E) (i : ℕ) (c : List (DictNode E))
      → i < length t.bucket
      → erase_node_after (store_chain t i c) i ≡ record t {
        nr_nodes = sub32 t.nr_nodes 1;
        bucket = set t.bucket i c;
        mapping = if bucket_empty c then set t.mapping i false else t.mapping;
      }
  unfolding erase_node_after
  erased t i [] h = rw (same t i [] h) refl
  erased t i (n ∷ c) h = rw (same t i (n ∷ c) h) refl

  pub inserted :
      (t : DictTable E) (i : ℕ) (c : List (DictNode E))
      → store_chain (insert_node_before t i) i c ≡ record t {
        nr_nodes = add32 t.nr_nodes 1;
        bucket = set t.bucket i c;
        mapping = if bucket_empty (chain_at t i) then set t.mapping i true else t.mapping;
      }
  unfolding insert_node_before
  inserted t i c = elim (Bool-cases (bucket_empty (chain_at t i))) [
    | inl h ↦ rw h refl
    | inr h ↦ rw h refl
  ]

  pub chain_at-erased :
      (t : DictTable E) (i : ℕ) (c : List (DictNode E))
      → i < length t.bucket
      → chain_at (erase_node_after (store_chain t i c) i) i ≡ c
  chain_at-erased t i c h = ap (λ u. chain_at u i) (erased t i c h) ∙ same t i c h

  pub chain_at-erased_ne :
      (t : DictTable E) (i j : ℕ) (c : List (DictNode E))
      → i < length t.bucket
      → i ≢ j
      → chain_at (erase_node_after (store_chain t i c) i) j ≡ chain_at t j
  chain_at-erased_ne t i j c h ne =
      ap (λ u. chain_at u j) (erased t i c h) ∙ ground (arith, get_or-set t.bucket i j c [] h, ne)

  pub size-erased :
      (t : DictTable E) (i : ℕ) (c : List (DictNode E))
      → i < length t.bucket
      → (erase_node_after (store_chain t i c) i).size ≡ t.size
  size-erased t i c h = ap (λ (u : DictTable E). u.size) (erased t i c h)

  pub size-inserted :
      (t : DictTable E) (i : ℕ) (c : List (DictNode E))
      → (store_chain (insert_node_before t i) i c).size ≡ t.size
  size-inserted t i c = ap (λ (u : DictTable E). u.size) (inserted t i c)

  pub chain_at-insert_node_before :
      (t : DictTable E) (i j : ℕ) → chain_at (insert_node_before t i) j ≡ chain_at t j
  unfolding insert_node_before
  chain_at-insert_node_before t i j = elim (Bool-cases (bucket_empty (chain_at t i))) [
    | inl h ↦ rw h refl
    | inr h ↦ rw h refl
  ]

  pub bucket_index-lt :
      (t : DictTable E) (hvalue k : ℕ) → k ≤ 31 → t.size ≡ 2 ^ k → bucket_index t hvalue < t.size
  unfolding bucket_index
  bucket_index-lt t hvalue k le e =
      let mask : sub32 t.size 1 ≡ 2 ^ k - 1 =
        omega (arith, e, pow_pos k, pow-le-pow_right {n = 2} (omega arith) {i = k} {j = 31} le) in
      omega (arith, ap (bit_and hvalue) mask, bit_and_mask k hvalue, mod-lt hvalue (pow_pos k), e)

  in_use : (c : List (DictNode E)) {n : ℕ} → length c ≡ suc n → bucket_empty c ≡ false
  in_use [] e = absurd (omega (arith, e))
  in_use (n ∷ c) e = refl

  pub erase-IsSound :
      (t : DictTable E) (i : ℕ) (c : List (DictNode E))
      → IsSound t
      → i < t.size
      → length (chain_at t i) ≡ suc (length c)
      → IsSound (erase_node_after (store_chain t i c) i)
        × (suc (total (erase_node_after (store_chain t i c) i).bucket) ≡ total t.bucket)
  erase-IsSound t i c s lt shorter =
      subst (λ u. IsSound u × (suc (total u.bucket) ≡ total t.bucket))
        (sym (erased t i c (omega (arith, s.sized, lt))))
        (
          record {
            sized = length-set t.bucket i c ∙ s.sized;
            mapped = length-marked t.mapping c ∙ s.mapped;
            marks = marked c shorter;
            counts = omega (arith, s.counts, s.fits, fewer);
            fits = omega (arith, s.fits, fewer);
          },
          fewer,
        )
    where
      fewer : suc (total (set t.bucket i c)) ≡ total t.bucket
      fewer = omega (arith, total-set t.bucket i c (omega (arith, s.sized, lt)), shorter)

      length-marked :
          (bits : List Bool) (c : List (DictNode E))
          → length (if bucket_empty c then set bits i false else bits) ≡ length bits
      length-marked bits [] = length-set bits i false
      length-marked bits (n ∷ c) = refl

      marked :
          (c : List (DictNode E))
          → length (chain_at t i) ≡ suc (length c)
          → Marks (set t.bucket i c) (if bucket_empty c then set t.mapping i false else t.mapping)
      marked [] e =
          Marks-set t.bucket t.mapping i [] false s.marks (omega (arith, s.sized, lt))
            (omega (arith, s.mapped, lt)) refl
      marked (n ∷ c) e =
          Marks-keep t.bucket t.mapping i (n ∷ c) s.marks (omega (arith, s.sized, lt))
            (sym (in_use (chain_at t i) e))

  pub insert-IsSound :
      (t : DictTable E) (i : ℕ) (c : List (DictNode E))
      → IsSound t
      → i < t.size
      → length c ≡ suc (length (chain_at t i))
      → suc (total t.bucket) < u32_mod
      → IsSound (store_chain (insert_node_before t i) i c)
        × (total (store_chain (insert_node_before t i) i c).bucket ≡ suc (total t.bucket))
  insert-IsSound t i c s lt longer room =
      subst (λ u. IsSound u × (total u.bucket ≡ suc (total t.bucket))) (sym (inserted t i c))
        (
          record {
            sized = length-set t.bucket i c ∙ s.sized;
            mapped = length-marked ∙ s.mapped;
            marks = marked;
            counts = omega (arith, s.counts, room, more);
            fits = omega (arith, room, more);
          },
          more,
        )
    where
      more : total (set t.bucket i c) ≡ suc (total t.bucket)
      more = omega (arith, total-set t.bucket i c (omega (arith, s.sized, lt)), longer)

      length-marked :
          length (if bucket_empty (chain_at t i) then set t.mapping i true else t.mapping)
          ≡ length t.mapping
      length-marked = elim (Bool-cases (bucket_empty (chain_at t i))) [
        | inl e ↦ rw e (length-set t.mapping i true)
        | inr e ↦ rw e refl
      ]

      marked :
          Marks
            (set t.bucket i c)
            (if bucket_empty (chain_at t i) then set t.mapping i true else t.mapping)
      marked = elim (Bool-cases (bucket_empty (chain_at t i))) [
        | inl e ↦ rw e (
            Marks-set t.bucket t.mapping i c true s.marks (omega (arith, s.sized, lt))
              (omega (arith, s.mapped, lt)) (sym (ap not (in_use c longer))))
        | inr e ↦ rw e (
            Marks-keep t.bucket t.mapping i c s.marks (omega (arith, s.sized, lt))
              (in_use c longer ∙ sym e))
      ]
