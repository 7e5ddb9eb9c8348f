-- ===== src/Dict/Table/Keys.antt =====
-- Searching a chain of src/adt/dict.c for a key: what is found, and what there is where nothing is.
use Prim.Native.Nat.{bit_and}
use skp.Common.{
  ℕ, suc, ◌+◌, ◌≡◌, ◌≢◌, refl, sym, ap, ◌∙◌, Bool, true, false, Bool-cases, inl, inr, none, some,
  List, [], ◌∷◌, arith, length, get_or, if◌then◌else◌, ℕ_discrete,
}
use skp.Common.Int.{ℤ, is_zero}
use skp.Common.Word.{sub32}
use skp.Dict.{DictNode, DictTable, DictOps}
use skp.Dict.Keyed.{Keyed}
use skp.Dict.Table.{bucket_lookup, erase_node, chain_at, bucket_index}
use skp.Dict.Table.Weigh.{weigh_chain, weigh, AllIn, Placed, bucket_index_lem}

module _ {E : Type 0} (compare : DictNode E → ℤ) (m : DictNode E) (c : List (DictNode E)) where
  lookup_hit : is_zero (compare m) ≡ true → bucket_lookup compare (m ∷ c) ≡ some m
  unfolding bucket_lookup
  lookup_hit z = rw (z, bucket_lookup) refl

  lookup_miss :
      is_zero (compare m) ≡ false → bucket_lookup compare (m ∷ c) ≡ bucket_lookup compare c
  unfolding bucket_lookup
  lookup_miss z = rw (z, bucket_lookup) refl

  erase_hit : is_zero (compare m) ≡ true → erase_node compare (m ∷ c) ≡ c
  unfolding erase_node
  erase_hit z = rw (z, erase_node) refl

  erase_miss : is_zero (compare m) ≡ false → erase_node compare (m ∷ c) ≡ m ∷ erase_node compare c
  unfolding erase_node
  erase_miss z = rw (z, erase_node) refl

module _ {K E : Type 0} {ops : DictOps K E} (keyed : Keyed ops) where
  -- the comparison of a search for a key
  abbrev pub against : K → DictNode E → ℤ
  against k n = ops.compare_key n k (ops.calc_hash k)

  -- one for each node with the key
  abbrev pub hits : K → ℕ → E → ℕ
  hits k id e = if keyed.matches e k then 1 else 0

  chain_none :
      (k : K) (which : Bool) (size i : ℕ) (c : List (DictNode E))
      → AllIn keyed.hash_of which size i c
      → bucket_lookup (against k) c ≡ none
      → weigh_chain (hits k) c ≡ 0
  unfolding bucket_lookup
  chain_none k which size i [] a e = refl
  chain_none k which size i (n ∷ c) (h, j, b, l, a) e =
      elim (Bool-cases (keyed.matches n.entry k)) [
        | inl m ↦ cc (keyed.compares n k h)
        | inr m ↦ ground (arith, keyed.compares n k h, m, chain_none k which size i c a)
      ]

  -- Where the hash does not lead, no node has the key.
  chain_elsewhere :
      (k : K) (which : Bool) (size i : ℕ) (c : List (DictNode E))
      → AllIn keyed.hash_of which size i c
      → bit_and (ops.calc_hash k) (sub32 size 1) ≢ i
      → weigh_chain (hits k) c ≡ 0
  chain_elsewhere k which size i [] a ne = refl
  chain_elsewhere k which size i (n ∷ c) (h, j, b, l, a) ne =
      elim (Bool-cases (keyed.matches n.entry k)) [
        | inl m ↦
            absurd
              (ne (ap (λ v. bit_and v (sub32 size 1)) (sym (h ∙ keyed.hashes n.entry k m)) ∙ j))
        | inr m ↦ rw m (omega (arith, chain_elsewhere k which size i c a ne))
      ]

  -- What a search that finds a node says of it and of the chain without it.
  pub record FoundIn (k : K) (which : Bool) (size i : ℕ) (c : List (DictNode E)) (n : DictNode E)
      : Type 0 where
    pub same_key : keyed.matches n.entry k ≡ true
    pub shorter : length c ≡ suc (length (erase_node (against k) c))
    pub weights :
        (w : ℕ → E → ℕ)
        → weigh_chain w (erase_node (against k) c) + w n.id n.entry ≡ weigh_chain w c
    pub rest : AllIn keyed.hash_of which size i (erase_node (against k) c)

  pub chain_some :
      (k : K) (which : Bool) (size i : ℕ) (c : List (DictNode E)) (n : DictNode E)
      → AllIn keyed.hash_of which size i c
      → bucket_lookup (against k) c ≡ some n
      → FoundIn k which size i c n
  unfolding bucket_lookup
  chain_some k which size i [] n a e = cc
  chain_some k which size i (m ∷ c) n (h, j, b, l, a) e =
      elim (Bool-cases (is_zero (against k m))) [
        | inl z ↦
            let same : m ≡ n = cc (lookup_hit (against k) m c z) in
            let rest = erase_hit (against k) m c z in
            record {
              same_key =
                  ap (λ (x : DictNode E). keyed.matches x.entry k) (sym same)
                  ∙ sym (keyed.compares m k h)
                  ∙ z;
              shorter = ap (λ (t : List (DictNode E)). suc (length t)) (sym rest);
              weights = λ w.
                  omega
                    (arith, ap (weigh_chain w) rest, ap (λ (x : DictNode E). w x.id x.entry) same);
              rest = rw rest a;
            }
        | inr z ↦
            let f = chain_some k which size i c n a (sym (lookup_miss (against k) m c z) ∙ e) in
            let rest = erase_miss (against k) m c z in
            record {
              same_key = f.same_key;
              shorter =
                  ap suc f.shorter ∙ ap (λ (t : List (DictNode E)). suc (length t)) (sym rest);
              weights = λ w. omega (arith, ap (weigh_chain w) rest, f.weights w);
              rest = rw rest (h, j, b, l, f.rest);
            }
      ]

  weigh_zero :
      (w : ℕ → E → ℕ) (bs : List (List (DictNode E)))
      → ((i : ℕ) → weigh_chain w (get_or bs i []) ≡ 0)
      → weigh w bs ≡ 0
  unfolding weigh
  weigh_zero w [] h = refl
  weigh_zero w (c ∷ bs) h = omega (arith, h 0, weigh_zero w bs (λ i. h (suc i)))

  -- A search that finds nothing in the chain of a key finds all there is in the table.
  pub table_none :
      (k : K) (which : Bool) (t : DictTable E)
      → Placed keyed.hash_of which t
      → bucket_lookup (against k) (chain_at t (bucket_index t (ops.calc_hash k))) ≡ none
      → weigh (hits k) t.bucket ≡ 0
  table_none k which t p e = weigh_zero (hits k) t.bucket nothing
    where
      nothing : (i : ℕ) → weigh_chain (hits k) (chain_at t i) ≡ 0
      nothing i = elim (ℕ_discrete (bucket_index t (ops.calc_hash k)) i) [
        | yes q ↦
            chain_none k which t.size i (chain_at t i) (p i)
              (ap (λ j. bucket_lookup (against k) (chain_at t j)) (sym q) ∙ e)
        | no q ↦
            chain_elsewhere k which t.size i (chain_at t i) (p i)
              (λ r. q (sym (bucket_index_lem t (ops.calc_hash k)) ∙ r))
      ]
