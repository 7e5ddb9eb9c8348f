-- ===== src/Vector/Contents.antt =====
-- The elements of a vector of src/adt/vector.c, and where a search for one ends.
use native.Mathlib.Nat.{suc-mul, mul-le-mul_right, mul-lt-mul_of_pos_right}
use mathlib.Core.Bool.{false≢true}
use skp.Common.{
  ℕ, suc, ◌+◌, ◌-◌, ◌*◌, ◌%◌, ◌≤◌, ◌<◌, ◌≡◌, refl, sym, ap, ◌∙◌, Bool, true, false, Bool-cases, inl,
  inr, Option, some, List, [], ◌∷◌, ◌++◌, map, arith, ◌==◌, ltb, lt→ltb, if◌then◌else◌, length,
  length-append, length-map, set, dec_lt,
}
use skp.Common.Int.{ℤ, is_zero}
use skp.Common.Word.{u32_mod}
use skp.Vector.{Vector, vector_size, search}

not_zero : (n : ℕ) → 0 < n → (n == 0) ≡ false
not_zero n h = ground arith

module _ {E : Type 0} where
  -- The first element that compares equal, or the number of elements.
  pub locate : (E → ℤ) → List E → Bool × ℕ
  locate compare [] = (false, 0)
  locate compare (x ∷ xs) =
      let (found, at) = locate compare xs in
      if is_zero (compare x) then (true, 0) else (found, suc at)

  -- The elements are `xs`, in the first slots, and a size in bytes does not wrap.
  pub record Holds (xs : List E) (v : Vector E) : Type 0 where
    pub spare : List (Option E)
    pub laid : v.slots ≡ map some xs ++ spare
    pub counted : v.nr_elems ≡ length xs
    pub positive : 0 < v.elem_size
    pub fits : length v.slots * v.elem_size < u32_mod

  search-locate :
      (compare : E → ℤ) (size left : ℕ) (xs : List E) (spare : List (Option E))
      → 0 < size
      → left ≡ length xs * size
      → search compare size left (map some xs ++ spare) ≡ locate compare xs
  unfolding search locate
  search-locate compare size left [] [] pos e = refl
  search-locate compare size left [] (s ∷ spare) pos e = rw (zero_left left (omega (arith, e))) refl
    where
      zero_left : (n : ℕ) → n ≡ 0 → (n == 0) ≡ true
      zero_left n h = ground arith
  search-locate compare size left (x ∷ xs) spare pos e =
      let more : left ≡ length xs * size + size = e ∙ suc-mul (length xs) size in
      rw (not_zero left (omega (arith, more, pos)))
        (rw (search-locate compare size (left - size) xs spare pos (omega (arith, more))) refl)

  module _ {xs : List E} {v : Vector E} (h : Holds xs v) where
    open h use {spare, laid, counted, positive, fits}

    pub length-slots : length v.slots ≡ length xs + length spare
    length-slots =
        ap length laid
        ∙ length-append (map some xs) spare
        ∙ ap (λ n. n + length spare) (length-map xs some)

    size_eq : vector_size v ≡ length xs * v.elem_size
    unfolding vector_size
    size_eq =
        ap (λ n. (n * v.elem_size) % u32_mod) counted
        ∙ omega (
          arith,
          fits,
          mul-le-mul_right {m = length xs} {n = length v.slots} v.elem_size
              (omega (arith, length-slots)),
        )

    pub searched :
        (compare : E → ℤ) → search compare v.elem_size (vector_size v) v.slots ≡ locate compare xs
    searched compare =
        ap (search compare v.elem_size (vector_size v)) laid
        ∙ search-locate compare v.elem_size (vector_size v) xs spare positive size_eq

    -- whether a slot is free
    pub room : ltb (vector_size v) (length v.slots * v.elem_size) ≡ ltb (length xs) (length v.slots)
    room = elim (dec_lt (length xs) (length v.slots)) [
      | yes p ↦
          lt→ltb _ _ (
            omega (
              arith,
              size_eq,
              mul-lt-mul_of_pos_right {m = length xs} {n = length v.slots} {k = v.elem_size} p
                  positive,
            ))
          ∙ sym (lt→ltb _ _ p)
      | no p ↦
          above _ _ (
            omega (
              arith,
              size_eq,
              mul-le-mul_right {m = length v.slots} {n = length xs} v.elem_size (omega arith),
            ))
          ∙ sym (above _ _ (omega arith))
    ]
      where
        above : (a b : ℕ) → b ≤ a → ltb a b ≡ false
        above a b h = ground arith

module _ {E : Type 0} where
  pub locate_end :
      (compare : E → ℤ) (xs : List E)
      → (locate compare xs).0 ≡ false
      → (locate compare xs).1 ≡ length xs
  unfolding locate
  locate_end compare [] h = refl
  locate_end compare (x ∷ xs) h = elim (Bool-cases (is_zero (compare x))) [
    | inl z ↦ absurd (false≢true (sym (rw (z, locate) at h)))
    | inr z ↦ rw (z, locate) (ap suc (locate_end compare xs (rw (z, locate) at h)))
  ]

  pub set_end :
      (xs : List E) (s : Option E) (spare : List (Option E)) (elem : E)
      → set (map some xs ++ (s ∷ spare)) (length xs) (some elem)
        ≡ map some (xs ++ (elem ∷ [])) ++ spare
  set_end [] s spare elem = refl
  set_end (x ∷ xs) s spare elem = ap (◌∷◌ (some x)) (set_end xs s spare elem)
