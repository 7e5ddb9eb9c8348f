-- ===== src/Dict/Keyed.antt =====
-- What src/adt/dict.c asks of the caller's hash and comparison.
use skp.Common.{ℕ, ◌≡◌, Bool, true}
use skp.Common.Int.{is_zero}
use skp.Dict.{DictNode, DictOps}

-- `matches` is the equality of an entry with a key that `compare_key` decides on a node which has
-- the hash of its entry; equal keys have one hash, and are equal to the same entries.
pub record Keyed {K E : Type 0} (ops : DictOps K E) : Type 0 where
  pub matches : E → K → Bool
  pub hash_of : E → ℕ
  pub compares :
      (n : DictNode E) (k : K)
      → n.hvalue ≡ hash_of n.entry
      → is_zero (ops.compare_key n k (ops.calc_hash k)) ≡ matches n.entry k
  pub hashes : (e : E) (k : K) → matches e k ≡ true → hash_of e ≡ ops.calc_hash k
  pub alike :
      (e e' : E) (k k' : K)
      → matches e k ≡ true
      → matches e k' ≡ true
      → matches e' k ≡ matches e' k'
