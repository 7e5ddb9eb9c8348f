-- ===== src/Vector/Tests.antt =====
-- A vector of src/adt/vector.c that holds numbers of eight bytes.
use skp.Common.{ℕ, ◌≡◌, refl, true, some, none, [], ◌∷◌, arith, ltb, ◌||◌, ◌==◌, if◌then◌else◌}
use skp.Common.Int.{ℤ, pos}
use skp.Vector.{
  Vector, existed, vector_insert, vector_remove, search, expand, vector_size, move_down,
}
use skp.Vector.Contents.{Holds}
use skp.Vector.Insert.{insert_spec, vector_insert_refines}

abbrev against : ℕ → ℕ → ℤ
against key x = if x == key then pos 0 else pos 1

abbrev two : Vector ℕ
two = record { slots = some 5 ∷ some 9 ∷ none ∷ []; nr_elems = 2; elem_size = 8 }

two-Holds : Holds (5 ∷ 9 ∷ []) two
two-Holds = record {
  spare = none ∷ [];
  laid = refl;
  counted = refl;
  positive = omega arith;
  fits = omega arith;
}

finds : vector_insert true two (against 9) 9 ≡ (existed 1, two)
unfolding vector_insert search vector_size expand
finds = refl

removes :
    vector_remove two (against 5)
    ≡ (some (some 5), record { slots = some 9 ∷ some 9 ∷ none ∷ []; nr_elems = 1; elem_size = 8 })
unfolding vector_remove search vector_size move_down
removes = refl

vector_insert_refines_example :
    (w : Vector ℕ) × (vector_insert true two (against 7) 7
      ≡ ((insert_spec (ltb 2 3 || true) (against 7) 7 (5 ∷ 9 ∷ [])).0, w))
    × Holds (insert_spec (ltb 2 3 || true) (against 7) 7 (5 ∷ 9 ∷ [])).1 w
vector_insert_refines_example = vector_insert_refines two-Holds (against 7) 7 true (omega arith)
