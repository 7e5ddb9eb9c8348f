-- ===== src/Dict/Table/Weigh.antt =====
-- The nodes of one table of src/adt/dict.c as a multiset, and where in it a node stands. A multiset is
-- compared by weights: every function of the nodes' addresses and entries has the same sum.
use Prim.Native.Nat.{bit_and}
use skp.Common.{
  ℕ, zero, suc, ◌+◌, ◌≤◌, ◌<◌, ◌≡◌, ◌≢◌, refl, sym, ap, ◌∙◌, Bool, List, [], ◌∷◌, ◌++◌, arith,
  length, get_or, get_or-set, set, ℕ_discrete, if◌then◌else◌, ◌==◌,
}
use skp.Common.Word.{sub32}
use skp.Dict.{DictNode, DictTable}
use skp.Dict.Table.{bucket_index, chain_at, store_chain, erase_node_after, insert_node_before}
use skp.Dict.Table.Sound.{
  total, erased, inserted, chain_at-erased, chain_at-erased_ne, size-erased, size-inserted,
}

module _ {E : Type 0} where
  abbrev pub weigh_chain : (ℕ → E → ℕ) → List (DictNode E) → ℕ
  weigh_chain w [] = 0
  weigh_chain w (n ∷ c) = w n.id n.entry + weigh_chain w c

  unfoldable pub weigh : (ℕ → E → ℕ) → List (List (DictNode E)) → ℕ
  weigh w [] = 0
  weigh w (c ∷ cs) = weigh_chain w c + weigh w cs

  weigh-set :
      (w : ℕ → E → ℕ) (bs : List (List (DictNode E))) (i : ℕ) (c : List (DictNode E))
      → i < length bs
      → weigh w (set bs i c) + weigh_chain w (get_or bs i []) ≡ weigh w bs + weigh_chain w c
  unfolding weigh
  weigh-set w [] i c h = absurd (omega arith)
  weigh-set w (b ∷ bs) zero c h = omega arith
  weigh-set w (b ∷ bs) (suc i) c h = omega (arith, weigh-set w bs i c (omega arith))

  pub weigh_chain-append :
      (w : ℕ → E → ℕ) (c d : List (DictNode E))
      → weigh_chain w (c ++ d) ≡ weigh_chain w c + weigh_chain w d
  weigh_chain-append w [] d = omega arith
  weigh_chain-append w (n ∷ c) d = omega (arith, weigh_chain-append w c d)

  -- no nodes, no weight
  pub weigh_empty : (w : ℕ → E → ℕ) (bs : List (List (DictNode E))) → total bs ≡ 0 → weigh w bs ≡ 0
  unfolding weigh total
  weigh_empty w [] e = refl
  weigh_empty w ([] ∷ bs) e = omega (arith, weigh_empty w bs (omega arith))
  weigh_empty w ((n ∷ c) ∷ bs) e = absurd (omega arith)

  module _ (w : ℕ → E → ℕ) (t : DictTable E) (i : ℕ) (c : List (DictNode E))
      (h : i < length t.bucket) where
    pub weigh-erased :
        weigh w (erase_node_after (store_chain t i c) i).bucket + weigh_chain w (chain_at t i)
        ≡ weigh w t.bucket + weigh_chain w c
    weigh-erased =
        ap (λ (u : DictTable E). weigh w u.bucket + weigh_chain w (chain_at t i)) (erased t i c h)
        ∙ weigh-set w t.bucket i c h

    pub weigh-inserted :
        weigh w (store_chain (insert_node_before t i) i c).bucket + weigh_chain w (chain_at t i)
        ≡ weigh w t.bucket + weigh_chain w c
    weigh-inserted =
        ap (λ (u : DictTable E). weigh w u.bucket + weigh_chain w (chain_at t i)) (inserted t i c)
        ∙ weigh-set w t.bucket i c h

module _ {E : Type 0} (hash_of : E → ℕ) where
  -- The nodes of chain `i` of a table of this size have their hash, their chain and their table on
  -- them, and the hash leads to the chain.
  abbrev pub AllIn : Bool → ℕ → ℕ → List (DictNode E) → Type 0
  AllIn which size i [] = Unit
  AllIn which size i (n ∷ c) =
      (n.hvalue ≡ hash_of n.entry)
      × (bit_and n.hvalue (sub32 size 1) ≡ i)
      × (n.bindex ≡ i)
      × (n.whichb ≡ which)
      × AllIn which size i c

  abbrev pub Placed : Bool → DictTable E → Type 0
  Placed which t = (i : ℕ) → AllIn which t.size i (chain_at t i)

  AllIn-eq :
      (which : Bool) (i : ℕ) {size size' : ℕ} {c c' : List (DictNode E)}
      → size' ≡ size
      → c' ≡ c
      → AllIn which size i c
      → AllIn which size' i c'
  AllIn-eq which i e f a = rw (e, f) a

  pub AllIn-append :
      (which : Bool) (size i : ℕ) (c d : List (DictNode E))
      → AllIn which size i c
      → AllIn which size i d
      → AllIn which size i (c ++ d)
  AllIn-append which size i [] d a b = b
  AllIn-append which size i (n ∷ c) d (h, j, k, l, a) b =
      (h, j, k, l, AllIn-append which size i c d a b)

  module _ (which : Bool) (t : DictTable E) (i : ℕ) (c : List (DictNode E))
      (h : i < length t.bucket) (p : Placed which t) (a : AllIn which t.size i c) where
    pub erased-Placed : Placed which (erase_node_after (store_chain t i c) i)
    erased-Placed j = elim (ℕ_discrete i j) [
      | yes e ↦
          AllIn-eq which j (size-erased t i c h)
            (ap (chain_at (erase_node_after (store_chain t i c) i)) (sym e)
              ∙ chain_at-erased t i c h)
            (rw (sym e) a)
      | no ne ↦ AllIn-eq which j (size-erased t i c h) (chain_at-erased_ne t i j c h ne) (p j)
    ]

    chain_at-inserted :
        (j : ℕ)
        → chain_at (store_chain (insert_node_before t i) i c) j
          ≡ (if i == j then c else chain_at t j)
    chain_at-inserted j = ap (λ u. chain_at u j) (inserted t i c) ∙ get_or-set t.bucket i j c [] h

    at_self : (j : ℕ) → i ≡ j → chain_at (store_chain (insert_node_before t i) i c) j ≡ c
    at_self j e = chain_at-inserted j ∙ ground (arith, e)

    at_other :
        (j : ℕ) → i ≢ j → chain_at (store_chain (insert_node_before t i) i c) j ≡ chain_at t j
    at_other j ne = chain_at-inserted j ∙ ground (arith, ne)

    pub inserted-Placed : Placed which (store_chain (insert_node_before t i) i c)
    inserted-Placed j = elim (ℕ_discrete i j) [
      | yes e ↦ AllIn-eq which j (size-inserted t i c) (at_self j e) (rw (sym e) a)
      | no ne ↦ AllIn-eq which j (size-inserted t i c) (at_other j ne) (p j)
    ]

pub bucket_index_lem :
    {E : Type 0} (t : DictTable E) (hvalue : ℕ)
    → bit_and hvalue (sub32 t.size 1) ≡ bucket_index t hvalue
unfolding bucket_index
bucket_index_lem t hvalue = refl

-- a chain weighs no more than its table
pub weigh_chain-le :
    {E : Type 0} (w : ℕ → E → ℕ) (bs : List (List (DictNode E))) (i : ℕ)
    → weigh_chain w (get_or bs i []) ≤ weigh w bs
unfolding weigh
weigh_chain-le w [] i = omega arith
weigh_chain-le w (c ∷ bs) zero = omega arith
weigh_chain-le w (c ∷ bs) (suc i) = omega (arith, weigh_chain-le w bs i)

weigh_chain_ones : {E : Type 0} (c : List (DictNode E)) → weigh_chain (λ id entry. 1) c ≡ length c
weigh_chain_ones [] = refl
weigh_chain_ones (n ∷ c) = omega (arith, weigh_chain_ones c)

-- the nodes, each of weight 1
pub weigh_ones : {E : Type 0} (bs : List (List (DictNode E))) → weigh (λ id entry. 1) bs ≡ total bs
unfolding weigh total
weigh_ones [] = refl
weigh_ones (c ∷ bs) = omega (arith, weigh_ones bs, weigh_chain_ones c)
