-- ===== src/Dict/Table/Fresh.antt =====
-- The tables that `dict_table_init` of src/adt/dict.c makes.
use skp.Common.{
  ℕ, zero, suc, ◌<◌, ◌≡◌, refl, sym, ap, ◌∙◌, true, false, not, List, [], arith, length-replicate,
  replicate, get_or, ◌==◌,
}
use skp.Dict.{DictNode, DictTable}
use skp.Dict.Table.{bucket_empty, dict_table_init, chain_at}
use skp.Dict.Table.Sound.{IsSound, total}

-- a table that was released
pub released : (E : Type 0) → (dict_table_init {E = E} true 0).1.bucket ≡ []
unfolding dict_table_init
released E = refl

pub total_nil : (E : Type 0) → total {E = E} [] ≡ 0
unfolding total
total_nil E = refl

get_or-replicate {ℓ} : {A : Type ℓ} (n i : ℕ) (a : A) → get_or (replicate n a) i a ≡ a
get_or-replicate zero i a = refl
get_or-replicate (suc n) zero a = refl
get_or-replicate (suc n) (suc i) a = get_or-replicate n i a

total-replicate : (E : Type 0) (n : ℕ) → total {E = E} (replicate n []) ≡ 0
unfolding total
total-replicate E zero = refl
total-replicate E (suc n) = omega (arith, total-replicate E n)

-- the table that an allocation gives, and the one that a failure leaves
pub fresh : (E : Type 0) → ℕ → DictTable E
fresh E size = record {
  nr_nodes = 0;
  size = size;
  bucket = replicate size [];
  mapping = replicate size false;
}

not_zero : (n : ℕ) → 0 < n → (n == 0) ≡ false
not_zero n h = ground arith

pub dict_table_init-fresh :
    (E : Type 0) (size : ℕ) → 0 < size → dict_table_init {E = E} true size ≡ (true, fresh E size)
unfolding dict_table_init fresh
dict_table_init-fresh E size pos = rw (not_zero size pos) refl

pub dict_table_init_failed :
    (E : Type 0) (size : ℕ)
    → 0 < size
    → dict_table_init {E = E} false size
      ≡ (false, record { nr_nodes = 0; size = size; bucket = []; mapping = [] })
unfolding dict_table_init
dict_table_init_failed E size pos = rw (not_zero size pos) refl

pub total-fresh : (E : Type 0) (size : ℕ) → total (fresh E size).bucket ≡ 0
unfolding fresh
total-fresh E size = total-replicate E size

pub fresh-IsSound : (E : Type 0) (size : ℕ) → IsSound (fresh E size)
unfolding fresh
fresh-IsSound E size = record {
  sized = length-replicate size [];
  mapped = length-replicate size false;
  marks = λ i h.
      get_or-replicate size i false
      ∙ sym (ap (λ (c : List (DictNode E)). not (bucket_empty c)) (get_or-replicate size i []));
  counts = sym (total-replicate E size);
  fits = omega (arith, total-replicate E size);
}

pub chain_at-fresh : (E : Type 0) (size i : ℕ) → chain_at (fresh E size) i ≡ []
unfolding fresh
chain_at-fresh E size i = get_or-replicate size i []

pub size-fresh : (E : Type 0) (size : ℕ) → (fresh E size).size ≡ size
unfolding fresh
size-fresh E size = refl
