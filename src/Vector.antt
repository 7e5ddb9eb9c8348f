-- ===== src/Vector.antt =====
-- include/skp/adt/vector.h and src/adt/vector.c: the array of elements of one size, each once. The memory from
-- `start` to `end` is a list of slots, `none` in a slot that was never written; an index stands for a
-- pointer into it. Sizes in bytes are products in uint32_t, as in the code. Whether `malloc` succeeds
-- is an argument, and the comparison with a key is the caller's.
pub mod Contents
pub mod Insert
mod Tests
use skp.Common.{
  ℕ, suc, ◌+◌, ◌-◌, ◌*◌, ◌%◌, Bool, true, false, Option, none, some, List, [], ◌∷◌, ◌++◌, ◌==◌, ltb,
  if◌then◌else◌, length, get_or, set, take, drop, replicate,
}
use skp.Common.Int.{ℤ, is_zero}
use skp.Common.Word.{add32, sub32, u32_mod}

abbrev pub vec_nr_elems : ℕ
vec_nr_elems = 128

pub record Vector (E : Type 0) : Type 0 where
  pub slots : List (Option E)
  pub nr_elems : ℕ
  pub elem_size : ℕ

-- What `__vector_insert` returns: the element that is there, ERR_PTR(-ENOMEM), or NULL.
pub data Inserted : Type 0 where
  existed : ℕ → Inserted
  enomem inserted : Inserted

module _ {E : Type 0} where
  pub vector_init : ℕ → Vector E
  vector_init elem_size = record { slots = []; nr_elems = 0; elem_size = elem_size }

  pub vector_size : Vector E → ℕ
  vector_size v = (v.nr_elems * v.elem_size) % u32_mod

  -- The index that `vector_idx` points to; `none` is NULL.
  pub vector_idx : Vector E → ℕ → Option ℕ
  vector_idx v idx = if ltb v.nr_elems idx then none else some idx

  -- `vector_for_each_elem` with a comparison, on the bytes left: whether an element was found, and
  -- where the pointer stands.
  pub search : (E → ℤ) → ℕ → ℕ → List (Option E) → Bool × ℕ
  search compare elem_size left [] = (false, 0)
  search compare elem_size left (s ∷ ss) =
      let (found, at) = search compare elem_size (left - elem_size) ss in
      if left == 0 then (false, 0) else (elim s [
        | none ↦ (found, suc at)
        | some x ↦ if is_zero (compare x) then (true, 0) else (found, suc at)
      ])

  -- `__expand`: `none` is -ENOMEM.
  pub expand : Bool → Vector E → Option (Vector E)
  expand allocated v =
      if ltb (vector_size v) (length v.slots * v.elem_size)
      then some v
      else if allocated
      then some (record v { slots = v.slots ++ replicate vec_nr_elems none })
      else none

  pub vector_insert : Bool → Vector E → (E → ℤ) → E → Inserted × Vector E
  vector_insert allocated v compare elem =
      let (found, at) = search compare v.elem_size (vector_size v) v.slots in
      if found then (existed at, v) else (elim (expand allocated v) [
        | none ↦ (enomem, v)
        | some w ↦ (
          inserted,
          record w { slots = set w.slots at (some elem); nr_elems = add32 w.nr_elems 1 },
        )
      ])

  -- `memmove` of `n` slots, from behind `at` to `at`
  pub move_down : ℕ → ℕ → List (Option E) → List (Option E)
  move_down at n slots = take at slots ++ take n (drop (at + 1) slots) ++ drop (at + n) slots

  -- `none` is -ENOENT; otherwise the element that was taken out, as it was in its slot.
  pub vector_remove : Vector E → (E → ℤ) → Option (Option E) × Vector E
  vector_remove v compare =
      let (found, at) = search compare v.elem_size (vector_size v) v.slots in
      if found
      then (
        some (get_or v.slots at none),
        record v {
          slots = move_down at (v.nr_elems - (at + 1)) v.slots;
          nr_elems = sub32 v.nr_elems 1;
        },
      )
      else (none, v)

  -- `__vector_copy` without an action, into a vector that is empty: whether it succeeds.
  pub vector_copy : Bool → Vector E → Vector E → Bool × Vector E
  vector_copy allocated dst src =
      if vector_size src == 0
      then (true, dst)
      else if allocated
      then (
        true,
        record {
          slots = take src.nr_elems src.slots;
          nr_elems = src.nr_elems;
          elem_size = src.elem_size;
        },
      )
      else (false, dst)

  pub vector_release : Vector E → Vector E
  vector_release v = record v { slots = []; nr_elems = 0 }
