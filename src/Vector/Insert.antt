-- ===== src/Vector/Insert.antt =====
-- `__vector_insert` of src/adt/vector.c, on a vector with known elements.
use native.Mathlib.Nat.{mul-le-mul_left}
use mathlib.Core.Bool.{false≢true}
use mathlib.Core.Path.{subst}
use skp.Common.{
  ℕ, ◌+◌, ◌*◌, ◌<◌, ◌≡◌, refl, sym, ap, ◌∙◌, Bool, true, false, ◌||◌, Bool-cases, inl, inr, Option,
  none, some, List, [], ◌∷◌, ◌++◌, map, arith, ltb, lt→ltb, ltb→lt, if◌then◌else◌, length,
  length-append, length-map, length-set, set, replicate, append-nil,
}
use skp.Common.Int.{ℤ}
use skp.Common.Word.{add32, u32_mod}
use skp.Vector.{Vector, Inserted, existed, enomem, inserted, vec_nr_elems, expand, vector_insert}
use skp.Vector.Contents.{locate, Holds, searched, length-slots, room, locate_end, set_end}

module _ {E : Type 0} where
  -- What an insertion promises, when `can` says whether there is room for one element more.
  pub insert_spec : Bool → (E → ℤ) → E → List E → Inserted × List E
  insert_spec can compare elem xs =
      let (found, at) = locate compare xs in
      if found
      then (existed at, xs)
      else if can
      then (inserted, xs ++ (elem ∷ []))
      else (enomem, xs)

  -- an element goes into the first free slot
  stored :
      (xs : List E) (w : Vector E) (elem : E) (free : Option E) (spare : List (Option E))
      → w.slots ≡ map some xs ++ (free ∷ spare)
      → w.nr_elems ≡ length xs
      → 0 < w.elem_size
      → length w.slots * w.elem_size < u32_mod
      → length w.slots < u32_mod
      → Holds
          (xs ++ (elem ∷ []))
          (record w { slots = set w.slots (length xs) (some elem); nr_elems = add32 w.nr_elems 1 })
  stored xs w elem free spare laid counted pos fits small = record {
    spare = spare;
    laid = ap (λ t. set t (length xs) (some elem)) laid ∙ set_end xs free spare elem;
    counted = omega (
      arith,
      counted,
      length-append xs (elem ∷ []),
      small,
      ap length laid,
      length-append (map some xs) (free ∷ spare),
      length-map xs (λ (x : E). some x),
    );
    positive = pos;
    fits =
        omega (arith, fits, ap (λ n. n * w.elem_size) (length-set w.slots (length xs) (some elem)));
  }

  module _ {xs : List E} {v : Vector E} (h : Holds xs v) (compare : E → ℤ) (elem : E) where
    insert_found :
        (allocated : Bool)
        → (locate compare xs).0 ≡ true
        → vector_insert allocated v compare elem ≡ (existed (locate compare xs).1, v)
    unfolding vector_insert
    insert_found allocated f = rw (searched h compare, vector_insert) (rw f refl)

    -- what follows once the pointer stands behind the elements
    abbrev outcome : ℕ → Option (Vector E) → Inserted × Vector E
    outcome at none = (enomem, v)
    outcome at (some w) =
        (inserted, record w { slots = set w.slots at (some elem); nr_elems = add32 w.nr_elems 1 })

    insert_with :
        (allocated : Bool) (o : Option (Vector E))
        → (locate compare xs).0 ≡ false
        → expand allocated v ≡ o
        → vector_insert allocated v compare elem ≡ outcome (length xs) o
    unfolding vector_insert
    insert_with allocated o f e =
        ap (λ w. if w.0 then (existed w.1, v) else outcome w.1 (expand allocated v))
          (searched h compare)
        ∙ ap
            (λ b.
              if b
              then (existed (locate compare xs).1, v)
              else outcome (locate compare xs).1 (expand allocated v))
            f
        ∙ ap (λ n. outcome n (expand allocated v)) (locate_end compare xs f)
        ∙ ap (outcome (length xs)) e

    -- a vector that an insertion may leave, with the reply
    abbrev Result : Bool → Inserted × List E → Type 0
    Result allocated (reply, ys) =
        (w : Vector E) × (vector_insert allocated v compare elem ≡ (reply, w)) × Holds ys w

    spec_found :
        (can : Bool)
        → (locate compare xs).0 ≡ true
        → (existed (locate compare xs).1, xs) ≡ insert_spec can compare elem xs
    unfolding insert_spec
    spec_found can f = rw (f, insert_spec) refl

    spec_new :
        (can : Bool)
        → (locate compare xs).0 ≡ false
        → (if can then (inserted, xs ++ (elem ∷ [])) else (enomem, xs))
          ≡ insert_spec can compare elem xs
    unfolding insert_spec
    spec_new can f = rw (f, insert_spec) refl

    few : (n : ℕ) → n * v.elem_size < u32_mod → n < u32_mod
    few n lt =
        omega (arith, lt, mul-le-mul_left {m = 1} {n = v.elem_size} n (omega (arith, h.positive)))

    expand_room :
        (allocated : Bool) → ltb (length xs) (length v.slots) ≡ true → expand allocated v ≡ some v
    unfolding expand
    expand_room allocated lt = rw (room h ∙ lt, expand) refl

    expand_full :
        (allocated : Bool)
        → ltb (length xs) (length v.slots) ≡ false
        → expand allocated v ≡ (
            if allocated
            then some (record v { slots = v.slots ++ replicate vec_nr_elems none })
            else none)
    unfolding expand
    expand_full allocated ge = rw (room h ∙ ge, expand) refl

    in_room :
        (allocated : Bool)
        → (locate compare xs).0 ≡ false
        → ltb (length xs) (length v.slots) ≡ true
        → Result allocated (inserted, xs ++ (elem ∷ []))
    in_room allocated f lt = (_, insert_with allocated (some v) f (expand_room allocated lt), kept)
      where
        kept : Holds (xs ++ (elem ∷ [])) (outcome (length xs) (some v)).1
        kept =
            elim (h.spare)
                as (λ sp.
                  h.spare ≡ sp → Holds (xs ++ (elem ∷ [])) (outcome (length xs) (some v)).1) [
                    | [] ↦ λ e. absurd (omega (arith, ltb→lt _ _ lt, length-slots h, ap length e))
                    | s ∷ spare ↦ λ e.
                        stored xs v elem s spare (h.laid ∙ ap (λ t. map some xs ++ t) e) h.counted
                          h.positive h.fits (few (length v.slots) h.fits)
                  ]
              refl

    no_spare : ltb (length xs) (length v.slots) ≡ false → h.spare ≡ []
    no_spare ge =
        elim (h.spare) as (λ sp. h.spare ≡ sp → sp ≡ []) [
          | [] ↦ λ e. refl
          | s ∷ spare ↦ λ e. absurd (
              false≢true (
                sym ge
                ∙ lt→ltb (length xs) (length v.slots) (omega (arith, length-slots h, ap length e))))
        ]
          refl

    grown :
        (locate compare xs).0 ≡ false
        → ltb (length xs) (length v.slots) ≡ false
        → (length v.slots + vec_nr_elems) * v.elem_size < u32_mod
        → Result true (inserted, xs ++ (elem ∷ []))
    grown f ge small = (
      _,
      insert_with true (some larger) f (expand_full true ge),
      stored xs larger elem none (replicate 127 none) laid h.counted h.positive
          (omega (arith, small, ap (λ n. n * v.elem_size) longer))
          (omega (arith, few (length v.slots + vec_nr_elems) small, longer)),
    )
      where
        larger : Vector E
        larger = record v { slots = v.slots ++ replicate vec_nr_elems none }

        longer :
            length (v.slots ++ replicate {A = Option E} vec_nr_elems none)
            ≡ length v.slots + vec_nr_elems
        longer = length-append v.slots (replicate vec_nr_elems none)

        laid :
            v.slots ++ replicate {A = Option E} vec_nr_elems none
            ≡ map some xs ++ (none ∷ replicate 127 none)
        laid =
            ap (λ t. t ++ replicate {A = Option E} vec_nr_elems none)
              (h.laid ∙ ap (λ t. map some xs ++ t) (no_spare ge) ∙ append-nil (map some xs))

    -- On a vector with the elements `xs`, an insertion returns what the sequence `xs` makes of it:
    -- the place of an element that compares equal, or else the sequence with the new element last, or
    -- -ENOMEM where no slot is free and none can be had. The size in bytes of a vector with a further
    -- VEC_NR_ELEMS slots must be below 2 ^ 32.
    pub vector_insert_refines :
        (allocated : Bool)
        → (length v.slots + vec_nr_elems) * v.elem_size < u32_mod
        → (w : Vector E) × (vector_insert allocated v compare elem
            ≡ ((insert_spec (ltb (length xs) (length v.slots) || allocated) compare elem xs).0, w))
          × Holds (insert_spec (ltb (length xs) (length v.slots) || allocated) compare elem xs).1 w
    vector_insert_refines allocated small = elim (Bool-cases (locate compare xs).0) [
      | inl f ↦ subst (Result allocated) (spec_found _ f) (v, insert_found allocated f, h)
      | inr f ↦ elim (Bool-cases (ltb (length xs) (length v.slots))) [
        | inl lt ↦
            subst (λ can. Result allocated (insert_spec (can || allocated) compare elem xs))
              (sym lt) (subst (Result allocated) (spec_new true f) (in_room allocated f lt))
        | inr ge ↦
            subst (λ can. Result allocated (insert_spec (can || allocated) compare elem xs))
              (sym ge) (full f ge allocated)
      ]
    ]
      where
        full :
            (locate compare xs).0 ≡ false
            → ltb (length xs) (length v.slots) ≡ false
            → (allocated : Bool) → Result allocated (insert_spec allocated compare elem xs)
        full f ge true = subst (Result true) (spec_new true f) (grown f ge small)
        full f ge false =
            subst (Result false) (spec_new false f)
              (v, insert_with false none f (expand_full false ge), h)
