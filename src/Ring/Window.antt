-- ===== src/Ring/Window.antt =====
-- The slots of a ring of `s` slots as positions: reading a run of positions, writing one, and
-- reading back what was written.
use native.Mathlib.Nat.{mod-add-mod, mod-eq_of_lt, mod-eq-sub-mod, mod-lt, add-zero, add_assoc}
use mathlib.Core.Path.{ap₂}
use skp.Common.{
  ℕ, zero, suc, ◌+◌, ◌-◌, ◌%◌, ◌≤◌, ◌<◌, ◌≡◌, ◌≢◌, refl, sym, ap, ◌∙◌, List, [], ◌∷◌, ◌++◌, arith,
  dec_lt, length, get_or, set, length-set, get_or-set, append-nil, append_assoc,
}

-- Two different positions less than `s` apart are two different slots.
pub slot_ne : (s a d : ℕ) → 0 < d → d < s → (a + d) % s ≢ a % s
slot_ne s a d pos lt e = elim (dec_lt (a % s + d) s) [
  | yes below ↦ absurd (omega (arith, e, mod-add-mod a s d, mod-eq_of_lt below))
  | no above ↦ absurd (
      omega (
        arith,
        e,
        mod-add-mod a s d,
        mod-lt a {m = s} (omega arith),
        mod-eq-sub-mod {n = a % s + d} {m = s} (omega arith),
        mod-eq_of_lt {n = a % s + d - s} {m = s} (omega (arith, mod-lt a {m = s} (omega arith))),
      ))
]

add-suc_add : (n k : ℕ) → n + suc k ≡ n + 1 + k
add-suc_add n k = omega arith

module _ (s : ℕ) where
  -- the `n` entries from position `h` on
  abbrev pub window : List ℕ → ℕ → ℕ → List ℕ
  window ring h zero = []
  window ring h (suc n) = get_or ring (h % s) 0 ∷ window ring (h + 1) n

  -- the entries `xs` written from position `p` on
  abbrev pub put : List ℕ → ℕ → List ℕ → List ℕ
  put ring p [] = ring
  put ring p (x ∷ xs) = put (set ring (p % s) x) (p + 1) xs

  pub length-window : (ring : List ℕ) (h n : ℕ) → length (window ring h n) ≡ n
  length-window ring h zero = refl
  length-window ring h (suc n) = ap suc (length-window ring (h + 1) n)

  pub length-put : (ring : List ℕ) (p : ℕ) (xs : List ℕ) → length (put ring p xs) ≡ length ring
  length-put ring p [] = refl
  length-put ring p (x ∷ xs) =
      length-put (set ring (p % s) x) (p + 1) xs ∙ length-set ring (p % s) x

  -- only the slot of the first position counts
  pub window_slot : (ring : List ℕ) (h k n : ℕ) → h % s ≡ k % s → window ring h n ≡ window ring k n
  window_slot ring h k zero e = refl
  window_slot ring h k (suc n) e = ap₂ ◌∷◌ (ap (λ t. get_or ring t 0) e) (
      window_slot ring (h + 1) (k + 1) n
        (sym (mod-add-mod h s 1) ∙ ap (λ t. (t + 1) % s) e ∙ mod-add-mod k s 1))

  pub put_slot :
      (ring : List ℕ) (p q : ℕ) (xs : List ℕ) → p % s ≡ q % s → put ring p xs ≡ put ring q xs
  put_slot ring p q [] e = refl
  put_slot ring p q (x ∷ xs) e =
      ap (λ t. put (set ring t x) (p + 1) xs) e
      ∙ put_slot (set ring (q % s) x) (p + 1) (q + 1) xs
          (sym (mod-add-mod p s 1) ∙ ap (λ t. (t + 1) % s) e ∙ mod-add-mod q s 1)

  pub window_add :
      (ring : List ℕ) (h m n : ℕ) → window ring h (m + n) ≡ window ring h m ++ window ring (h + m) n
  window_add ring h zero n = ap₂ (window ring) (omega arith) (omega arith)
  window_add ring h (suc m) n =
      ap (window ring h) {x = suc m + n} {y = suc (m + n)} (omega arith)
      ∙ ap (◌∷◌ (get_or ring (h % s) 0)) (
          window_add ring (h + 1) m n
          ∙ ap (λ t. window ring (h + 1) m ++ window ring t n) (omega arith))

  pub put-append :
      (ring : List ℕ) (p : ℕ) (xs ys : List ℕ)
      → put ring p (xs ++ ys) ≡ put (put ring p xs) (p + length xs) ys
  put-append ring p [] ys = ap (λ t. put ring t ys) (omega arith)
  put-append ring p (x ∷ xs) ys =
      put-append (set ring (p % s) x) (p + 1) xs ys
      ∙ ap (λ t. put (put (set ring (p % s) x) (p + 1) xs) t ys) (omega arith)

  -- a write to a slot outside the window does not show in it
  window-set_ne :
      (ring : List ℕ) (h n i x : ℕ)
      → i < length ring
      → ((d : ℕ) → d < n → (h + d) % s ≢ i)
      → window (set ring i x) h n ≡ window ring h n
  window-set_ne ring h zero i x hi h_ne = refl
  window-set_ne ring h (suc n) i x hi h_ne = ap₂ ◌∷◌ (apart (h_ne 0 (omega arith))) (
      window-set_ne ring (h + 1) n i x hi
        λ d hd e. h_ne (suc d) (omega arith) (ap (λ t. t % s) (omega arith) ∙ e))
    where
      apart : (h + 0) % s ≢ i → get_or (set ring i x) (h % s) 0 ≡ get_or ring (h % s) 0
      apart ne = ground (arith, get_or-set ring i (h % s) x 0 hi, ap (λ t. t % s) (add-zero h))

  -- writing the entry behind the window extends it
  window-set_end :
      (ring : List ℕ) (h n x : ℕ)
      → length ring ≡ s
      → n < s
      → window (set ring ((h + n) % s) x) h (n + 1) ≡ window ring h n ++ (x ∷ [])
  window-set_end ring h n x len fits =
      window_add (set ring ((h + n) % s) x) h n 1
      ∙ ap₂ ◌++◌
          (window-set_ne ring h n ((h + n) % s) x inside λ d hd e.
            slot_ne s (h + d) (n - d) (omega arith) (omega arith)
              (ap (λ t. t % s) (omega arith) ∙ sym e))
          (ap (λ t. t ∷ []) written)
    where
      inside : (h + n) % s < length ring
      inside = omega (arith, mod-lt (h + n) {m = s} (omega arith))

      written : get_or (set ring ((h + n) % s) x) ((h + n) % s) 0 ≡ x
      written = ground (arith, get_or-set ring ((h + n) % s) ((h + n) % s) x 0 inside)

  -- writing entries behind the window extends it by them, as long as they fit
  pub window-put :
      (ring : List ℕ) (h n : ℕ) (xs : List ℕ)
      → length ring ≡ s
      → n + length xs ≤ s
      → window (put ring (h + n) xs) h (n + length xs) ≡ window ring h n ++ xs
  window-put ring h n [] len fits = ap (window ring h) (add-zero n) ∙ sym (append-nil _)
  window-put ring h n (x ∷ xs) len fits =
      ap₂ (λ p k. window (put (set ring ((h + n) % s) x) p xs) h k) (add_assoc h n 1)
        (add-suc_add n (length xs))
      ∙ window-put (set ring ((h + n) % s) x) h (n + 1) xs (length-set _ _ _ ∙ len) (omega arith)
      ∙ ap (λ l. l ++ xs) (window-set_end ring h n x len (omega arith))
      ∙ append_assoc (window ring h n) (x ∷ []) xs
