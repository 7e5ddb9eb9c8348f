-- ===== src/Ring/Copy/Ends.antt =====
-- ENQUEUE_PTRS and DEQUEUE_PTRS of src/adt/ring.c as runs of positions, whichever branch they take.
use Prim.Native.Nat.{bit_and}
use mathlib.Core.Path.{ap₂}
use native.Mathlib.Nat.{mod-add-mod, mod-lt, mod-eq_of_lt, zero-add, mod_self, pow-le-pow_right}
use skp.Common.{
  ℕ, zero, suc, ◌+◌, ◌-◌, ◌/◌, ◌%◌, ◌^◌, ◌≤◌, ◌<◌, ◌≡◌, refl, sym, ap, ◌∙◌, List, [], ◌∷◌, ◌++◌,
  arith, length, get_or, set, take, drop, Bool-cases, false, inl, inr, ltb, ltb→lt,
}
use skp.Common.Bits.{bit_and_mask, pow_pos}
use skp.Common.Word.{add32, u32_mod}
use skp.Ring.Window.{window, put, put-append, window_add, length-window}
use skp.Ring.Copy.{copy_in, quads_in, rest_in, enqueue_ptrs, dequeue_ptrs}
use skp.Ring.Copy.Runs.{
  span, splice, Aligned, copy_in-splice, slot_run, splice-put, span-window, length-span, span_add,
  splice-append, unrolled,
}

not_ltb→le : (a b : ℕ) → ltb a b ≡ false → b ≤ a
not_ltb→le a b h = ground arith

-- After the entries up to the last slot the positions go on at slot 0.
wrapped : (s p : ℕ) → 0 < s → (p + (s - p % s)) % s ≡ 0
wrapped s p pos =
    sym (mod-add-mod p s (s - p % s))
    ∙ ap (λ t. t % s) {x = p % s + (s - p % s)} {y = s} (omega (arith, mod-lt p {m = s} pos))
    ∙ mod_self s

Aligned-wrapped : (s p n : ℕ) → n < s → Aligned s (p + (s - p % s)) 0 n
Aligned-wrapped s p n lt d hd =
    sym (mod-add-mod (p + (s - p % s)) s d)
    ∙ ap (λ t. (t + d) % s) (wrapped s p (omega arith))
    ∙ mod-eq_of_lt {n = 0 + d} {m = s} (omega arith)

-- The sum of a slot and a count below 2 ^ 31 does not wrap, so the code's test is exact.
fits_test : (k p n : ℕ) → k ≤ 31 → n < 2 ^ k → add32 (p % 2 ^ k) n ≡ p % 2 ^ k + n
fits_test k p n k_le small =
    mod-eq_of_lt {n = p % 2 ^ k + n} {m = u32_mod}
      (omega (arith, pow-le-pow_right {n = 2} (omega arith) k_le, mod-lt p {m = 2 ^ k} (pow_pos k)))

count_small : (k n : ℕ) → k ≤ 31 → n < 2 ^ k → n < u32_mod
count_small k n k_le small = omega (arith, pow-le-pow_right {n = 2} (omega arith) k_le)

module _ (k p n : ℕ) (k_le : k ≤ 31) (small : n < 2 ^ k) where
  abbrev s : ℕ
  s = 2 ^ k

  abbrev first : ℕ
  first = s - p % s

  slots : p % s + n ≤ s → Aligned s p (p % s) n
  slots fits d lt = slot_run s p d n fits lt

  -- where the run folds over, its first part ends at the last slot
  first_slots : Aligned s p (p % s) first
  first_slots d lt = slot_run s p d first (omega (arith, mod-lt p {m = s} (pow_pos k))) lt

  rest_slots : Aligned s (p + first) 0 (n - first)
  rest_slots = Aligned-wrapped s p (n - first) (omega arith)

  slots_of :
      (q idx m : ℕ) (xs : List ℕ) → length xs ≡ m → Aligned s q idx m → Aligned s q idx (length xs)
  slots_of q idx m xs e a = rw e a

  enqueue_straight :
      (ring objs : List ℕ)
      → p % s + n ≤ s
      → rest_in
          (bit_and n 3)
          (quads_in (bit_and n (u32_mod - 4) / 4) ring (p % s) objs 0)
          (p % s + bit_and n (u32_mod - 4))
          objs
          (bit_and n (u32_mod - 4))
        ≡ put s ring p (span objs 0 n)
  enqueue_straight ring objs fits =
      ap
        (rest_in (bit_and n 3) (quads_in (bit_and n (u32_mod - 4) / 4) ring (p % s) objs 0)
          (p % s + bit_and n (u32_mod - 4)) objs)
        (sym (zero-add _))
      ∙ unrolled n ring (p % s) objs 0 (count_small k n k_le small)
      ∙ splice-put s ring p (p % s) (span objs 0 n)
          (slots_of _ _ _ _ (length-span objs 0 n) (slots fits))

  enqueue_folded :
      (ring objs : List ℕ)
      → s ≤ p % s + n
      → copy_in (n - first) (copy_in first ring (p % s) objs 0) 0 objs first
        ≡ put s ring p (span objs 0 n)
  enqueue_folded ring objs folds =
      ap (λ r. copy_in (n - first) r 0 objs first)
        (copy_in-splice first ring (p % s) objs 0
          ∙ splice-put s ring p (p % s) (span objs 0 first)
              (slots_of _ _ _ _ (length-span objs 0 first) first_slots))
      ∙ copy_in-splice (n - first) (put s ring p (span objs 0 first)) 0 objs first
      ∙ splice-put s (put s ring p (span objs 0 first)) (p + first) 0 (span objs first (n - first))
          (slots_of _ _ _ _ (length-span objs first (n - first)) rest_slots)
      ∙ ap₂ (λ i q. put s (put s ring p (span objs 0 first)) (p + i) (span objs q (n - first)))
          (sym (length-span objs 0 first)) (sym (zero-add first))
      ∙ sym (put-append s ring p (span objs 0 first) (span objs (0 + first) (n - first)))
      ∙ ap (put s ring p) (sym (span_add objs 0 first (n - first)) ∙ ap (span objs 0) parts)
    where
      parts : first + (n - first) ≡ n
      parts = omega arith

  -- ENQUEUE_PTRS writes the first `n` entries of the table from the old head on.
  pub enqueue_ptrs-put :
      (ring objs : List ℕ)
      → enqueue_ptrs (2 ^ k) (2 ^ k - 1) ring p objs n ≡ put (2 ^ k) ring p (span objs 0 n)
  unfolding enqueue_ptrs
  enqueue_ptrs-put ring objs =
      rw (bit_and_mask k p, fits_test k p n k_le small)
        (elim (Bool-cases (ltb (p % s + n) s)) [
          | inl fits ↦ rw fits (enqueue_straight ring objs (omega (arith, ltb→lt _ _ fits)))
          | inr folds ↦ rw folds (enqueue_folded ring objs (not_ltb→le _ _ folds))
        ])

  dequeue_folded :
      (ring objs : List ℕ)
      → s ≤ p % s + n
      → copy_in (n - first) (copy_in first objs 0 ring (p % s)) first ring 0
        ≡ splice objs 0 (window s ring p n)
  dequeue_folded ring objs folds =
      ap (λ r. copy_in (n - first) r first ring 0)
        (copy_in-splice first objs 0 ring (p % s)
          ∙ ap (splice objs 0) (span-window s ring p (p % s) first first_slots))
      ∙ copy_in-splice (n - first) (splice objs 0 (window s ring p first)) first ring 0
      ∙ ap₂ (splice (splice objs 0 (window s ring p first)))
          (sym (zero-add first) ∙ ap (◌+◌ 0) (sym (length-window s ring p first)))
          (span-window s ring (p + first) 0 (n - first) rest_slots)
      ∙ sym (splice-append objs 0 (window s ring p first) (window s ring (p + first) (n - first)))
      ∙ ap (splice objs 0)
          (sym (window_add s ring p first (n - first)) ∙ ap (window s ring p) parts)
    where
      parts : first + (n - first) ≡ n
      parts = omega arith

  -- DEQUEUE_PTRS writes the `n` entries from the old head on to the start of the table.
  pub dequeue_ptrs-splice :
      (ring objs : List ℕ)
      → dequeue_ptrs (2 ^ k) (2 ^ k - 1) ring p objs n ≡ splice objs 0 (window (2 ^ k) ring p n)
  unfolding dequeue_ptrs
  dequeue_ptrs-splice ring objs =
      rw (bit_and_mask k p, fits_test k p n k_le small)
        (elim (Bool-cases (ltb (p % s + n) s)) [
          | inl fits ↦ rw fits (straight (omega (arith, ltb→lt _ _ fits)))
          | inr folds ↦ rw folds (dequeue_folded ring objs (not_ltb→le _ _ folds))
        ])
    where
      straight :
          p % s + n ≤ s
          → rest_in
              (bit_and n 3)
              (quads_in (bit_and n (u32_mod - 4) / 4) objs 0 ring (p % s))
              (bit_and n (u32_mod - 4))
              ring
              (p % s + bit_and n (u32_mod - 4))
            ≡ splice objs 0 (window s ring p n)
      straight fits =
          ap
            (λ t.
              rest_in (bit_and n 3) (quads_in (bit_and n (u32_mod - 4) / 4) objs 0 ring (p % s)) t
                ring (p % s + bit_and n (u32_mod - 4)))
            (sym (zero-add _))
          ∙ unrolled n objs 0 ring (p % s) (count_small k n k_le small)
          ∙ ap (splice objs 0) (span-window s ring p (p % s) n (slots fits))

span_cons : (x : ℕ) (l : List ℕ) (i n : ℕ) → span (x ∷ l) (suc i) n ≡ span l i n
span_cons x l i zero = refl
span_cons x l i (suc n) =
    ap (◌∷◌ (get_or l i 0)) (ap (λ t. span (x ∷ l) t n) (omega arith) ∙ span_cons x l (i + 1) n)

-- A span that fits in the table is a prefix of it.
pub span-take : (l : List ℕ) (n : ℕ) → n ≤ length l → span l 0 n ≡ take n l
span-take l zero h = refl
span-take [] (suc n) h = absurd (omega arith)
span-take (x ∷ l) (suc n) h = ap (◌∷◌ x) (span_cons x l 0 n ∙ span-take l n (omega arith))

splice_cons :
    (y : ℕ) (l : List ℕ) (i : ℕ) (xs : List ℕ) → splice (y ∷ l) (suc i) xs ≡ y ∷ splice l i xs
splice_cons y l i [] = refl
splice_cons y l i (x ∷ xs) =
    ap (λ t. splice (y ∷ set l i x) t xs) (omega arith) ∙ splice_cons y (set l i x) (i + 1) xs

-- Entries spliced in at the start replace as many, and leave the rest.
pub splice-drop : (l xs : List ℕ) → length xs ≤ length l → splice l 0 xs ≡ xs ++ drop (length xs) l
splice-drop l [] h = refl
splice-drop [] (x ∷ xs) h = absurd (omega arith)
splice-drop (y ∷ l) (x ∷ xs) h = splice_cons x l 0 xs ∙ ap (◌∷◌ x) (splice-drop l xs (omega arith))
