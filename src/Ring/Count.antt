-- ===== src/Ring/Count.antt =====
-- The inline queries of include/skp/adt/ring.h on a valid ring.
use Prim.Native.Nat.{bit_and}
use native.Mathlib.Nat.{mod-eq_of_lt}
use skp.Common.{
  ℕ, ◌+◌, ◌-◌, ◌^◌, ◌<◌, ◌≡◌, ◌↔◌, refl, ◌∙◌, List, [], ◌∷◌, arith, length, true, ◌==◌,
}
use skp.Common.Bits.{bit_and_mask}
use skp.Common.Word.{sub32}
use skp.Ring.{Ringb, count, free_count, full, empty, reset}
use skp.Ring.Valid.{IsValid, contents, length-contents, pow_le_31}

nil_of_length : (xs : List ℕ) → (length xs ≡ 0) ↔ (xs ≡ [])
nil_of_length [] = (λ _. refl, λ _. refl)
nil_of_length (x ∷ xs) = (λ h. absurd (omega arith), λ h. cc)

mask_used : (k mask used : ℕ) → mask ≡ 2 ^ k - 1 → used < 2 ^ k → bit_and used mask ≡ used
mask_used k mask used e lt = rw e (bit_and_mask k used ∙ mod-eq_of_lt lt)

module _ {r : Ringb} (v : IsValid r) where
  open v use {bits, bits_le, masked, capacity_lt, used_le}

  -- `ringb_count` is the number of entries in the ring.
  pub count-length : count r ≡ length (contents r)
  unfolding count
  count-length = ground (
    arith,
    length-contents r,
    used_le,
    mask_used bits r.mask (sub32 r.prod.tail r.cons.tail) masked
        (omega (arith, used_le, capacity_lt)),
  )

  -- `ringb_free_count` is what is missing to the capacity.
  pub free_count-length : free_count r ≡ r.capacity - length (contents r)
  unfolding free_count
  free_count-length =
      omega (arith, count-length, length-contents r, used_le, capacity_lt, pow_le_31 bits bits_le)

  -- On a valid ring the four queries speak of the contents: `ringb_count` is their length,
  -- `ringb_free_count` what is missing to the capacity, `ringb_full` holds exactly when nothing is
  -- missing, and `ringb_empty` exactly when there is nothing.
  pub queries-contents :
      (count r ≡ length (contents r))
      × (count r + free_count r ≡ r.capacity)
      × ((full r ≡ true) ↔ (length (contents r) ≡ r.capacity))
      × ((empty r ≡ true) ↔ (contents r ≡ []))
  unfolding full empty
  queries-contents = (
    count-length,
    omega (arith, count-length, free_count-length, length-contents r, used_le),
    ground (arith, free_count-length, length-contents r, used_le),
    empty_iff,
  )
    where
      empty_iff : ((count r == 0) ≡ true) ↔ (contents r ≡ [])
      empty_iff = (
        (λ e. (nil_of_length (contents r)).0 (ground (arith, count-length))),
        (λ e. ground (arith, count-length, (nil_of_length (contents r)).1 e)),
      )

-- `ringb_reset` empties a valid ring and keeps it valid, with its capacity.
reset-IsValid :
    {r : Ringb}
    → IsValid r
    → IsValid (reset r) × (contents (reset r) ≡ []) × ((reset r).capacity ≡ r.capacity)
unfolding reset
reset-IsValid v = (
  record {
    bits = v.bits;
    bits_le = v.bits_le;
    sized = v.sized;
    masked = v.masked;
    capacity_lt = v.capacity_lt;
    stored = v.stored;
    prod_head = refl;
    cons_head = refl;
    prod_lt = omega arith;
    cons_lt = omega arith;
    used_le = omega arith;
  },
  refl,
  refl,
)
