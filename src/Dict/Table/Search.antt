-- ===== src/Dict/Table/Search.antt =====
-- Searching the map of a table of src/adt/dict.c for a chain that is in use.
use skp.Common.{
  ℕ, zero, suc, ◌≤◌, ◌<◌, ◌≡◌, refl, ap, Bool, true, false, not, List, [], ◌∷◌, arith, length,
  get_or,
}
use skp.Dict.{DictNode}
use skp.Dict.Table.{bucket_empty, find_next_bit}
use skp.Dict.Table.Sound.{Marks, total}

module _ {E : Type 0} where
  -- The search goes past a chain that is empty.
  abbrev pub Found : List (List (DictNode E)) → ℕ → ℕ → Type 0
  Found bs from found =
      (found < length bs) × (from ≤ found) × ((i : ℕ) → i < found → get_or bs i [] ≡ [])

  skips :
      (c : List (DictNode E)) (bs : List (List (DictNode E))) (from found : ℕ)
      → c ≡ []
      → Found bs from found
      → Found (c ∷ bs) (suc from) (suc found)
  skips c bs from found e (lt, le, cleared) = (omega (arith, lt), omega (arith, le), λ i h. at i h)
    where
      at : (i : ℕ) → i < suc found → get_or (c ∷ bs) i [] ≡ []
      at zero h = e
      at (suc i) h = cleared i (omega arith)

  -- Whatever is in a table with nodes, a search of the map from the chains that are known to be
  -- empty finds a chain.
  pub find_next_bit_lem :
      (bs : List (List (DictNode E))) (bits : List Bool) (from : ℕ)
      → length bits ≡ length bs
      → Marks bs bits
      → ((i : ℕ) → i < from → get_or bs i [] ≡ [])
      → 0 < total bs
      → Found bs from (find_next_bit bits from)
  unfolding find_next_bit total
  find_next_bit_lem [] bits from e m cleared some_node = absurd (omega arith)
  find_next_bit_lem (c ∷ bs) [] from e m cleared some_node = absurd (omega arith)
  find_next_bit_lem (c ∷ bs) (b ∷ bits) (suc from) e m cleared some_node =
      skips c bs from (find_next_bit bits from) (cleared 0 (omega arith)) (
        find_next_bit_lem bs bits from (omega arith) (λ i h. m (suc i) (omega arith))
          (λ i h. cleared (suc i) (omega arith))
          (omega (arith, some_node, ap length (cleared 0 (omega arith)))))
  find_next_bit_lem (c ∷ bs) (true ∷ bits) zero e m cleared some_node =
      (omega arith, omega arith, λ i h. absurd (omega arith))
  find_next_bit_lem (c ∷ bs) (false ∷ bits) zero e m cleared some_node =
      let (lt, le, before) = skips c bs 0 (find_next_bit bits 0) (unmarked c (m 0 (omega arith))) (
        find_next_bit_lem bs bits 0 (omega arith) (λ i h. m (suc i) (omega arith))
          (λ i h. absurd (omega arith))
          (omega (arith, some_node, ap length (unmarked c (m 0 (omega arith)))))) in
      (lt, omega arith, before)
    where
      unmarked : (c : List (DictNode E)) → false ≡ not (bucket_empty c) → c ≡ []
      unmarked [] e = refl
      unmarked (n ∷ c) e = cc
