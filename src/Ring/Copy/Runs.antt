-- ===== src/Ring/Copy/Runs.antt =====
-- The copying loops of src/adt/ring.c, unrolled and wrapping, against one plain run of positions.
use Prim.Native.Nat.{bit_and}
use mathlib.Core.Path.{ap₂}
use native.Mathlib.Nat.{mod-add-mod, mod-eq_of_lt, add-zero, zero-add}
use skp.Common.{
  ℕ, zero, suc, ◌+◌, ◌-◌, ◌*◌, ◌/◌, ◌%◌, ◌≤◌, ◌<◌, ◌≡◌, refl, sym, ap, ◌∙◌, List, [], ◌∷◌, ◌++◌,
  arith, length, get_or, set,
}
use skp.Common.Bits.{bit_and_mask, bit_and_quads}
use skp.Common.Word.{u32_mod}
use skp.Ring.Window.{window, put}
use skp.Ring.Copy.{copy_in, quads_in, rest_in}

-- the `n` entries of a table from index `i` on
abbrev pub span : List ℕ → ℕ → ℕ → List ℕ
span l i zero = []
span l i (suc n) = get_or l i 0 ∷ span l (i + 1) n

-- entries written to a table from index `i` on
abbrev pub splice : List ℕ → ℕ → List ℕ → List ℕ
splice l i [] = l
splice l i (x ∷ xs) = splice (set l i x) (i + 1) xs

pub copy_in-splice :
    (n : ℕ) (ring : List ℕ) (idx : ℕ) (objs : List ℕ) (i : ℕ)
    → copy_in n ring idx objs i ≡ splice ring idx (span objs i n)
unfolding copy_in
copy_in-splice zero ring idx objs i = refl
copy_in-splice (suc n) ring idx objs i =
    copy_in-splice n (set ring idx (get_or objs i 0)) (idx + 1) objs (i + 1)

copy_in_add :
    (m n : ℕ) (ring : List ℕ) (idx : ℕ) (objs : List ℕ) (i : ℕ)
    → copy_in (m + n) ring idx objs i ≡ copy_in n (copy_in m ring idx objs i) (idx + m) objs (i + m)
unfolding copy_in
copy_in_add zero n ring idx objs i = rw (add-zero, add-zero, zero-add)
copy_in_add (suc m) n ring idx objs i =
    ap (λ k. copy_in k ring idx objs i) {x = suc m + n} {y = suc (m + n)} (omega arith)
    ∙ copy_in_add m n (set ring idx (get_or objs i 0)) (idx + 1) objs (i + 1)
    ∙ ap₂
        (λ a b.
          copy_in n (copy_in m (set ring idx (get_or objs i 0)) (idx + 1) objs (i + 1)) a objs b)
        (omega arith) (omega arith)

one_by_one : (n : ℕ) → (n + 2 ≡ n + 1 + 1) × (n + 3 ≡ n + 1 + 1 + 1) × (n + 4 ≡ n + 1 + 1 + 1 + 1)
one_by_one n = omega arith

-- Four at a time is one at a time.
quads_in-copy_in :
    (n : ℕ) (ring : List ℕ) (idx : ℕ) (objs : List ℕ) (i : ℕ)
    → quads_in n ring idx objs i ≡ copy_in (n * 4) ring idx objs i
unfolding quads_in copy_in
quads_in-copy_in zero ring idx objs i = refl
quads_in-copy_in (suc n) ring idx objs i =
    rw
      (
        (one_by_one idx).0,
        (one_by_one idx).1,
        (one_by_one idx).2,
        (one_by_one i).0,
        (one_by_one i).1,
        (one_by_one i).2,
      )
      (quads_in-copy_in n _ (idx + 1 + 1 + 1 + 1) objs (i + 1 + 1 + 1 + 1)
        ∙ ap (λ k. copy_in k ring idx objs i) four)
  where
    four : suc (suc (suc (suc (n * 4)))) ≡ suc n * 4
    four = omega arith

rest_in-copy_in :
    (k : ℕ) (ring : List ℕ) (idx : ℕ) (objs : List ℕ) (i : ℕ)
    → k < 4
    → rest_in k ring idx objs i ≡ copy_in k ring idx objs i
unfolding rest_in copy_in
rest_in-copy_in zero ring idx objs i h = refl
rest_in-copy_in (suc zero) ring idx objs i h = refl
rest_in-copy_in (suc (suc zero)) ring idx objs i h = refl
rest_in-copy_in (suc (suc (suc zero))) ring idx objs i h = refl
rest_in-copy_in (suc (suc (suc (suc k)))) ring idx objs i h = absurd (omega arith)

-- Where a run of positions starts below `s` slots and does not wrap, its slots count up.
pub slot_run : (s p d m : ℕ) → p % s + m ≤ s → d < m → (p + d) % s ≡ p % s + d
slot_run s p d m fits lt =
    sym (mod-add-mod p s d) ∙ mod-eq_of_lt {n = p % s + d} {m = s} (omega arith)

-- Slots that count up from `idx`, as positions do from `p`, for `n` entries.
abbrev pub Aligned : ℕ → ℕ → ℕ → ℕ → Type 0
Aligned s p idx n = (d : ℕ) → d < n → (p + d) % s ≡ idx + d

Aligned-head : (s p idx n : ℕ) → Aligned s p idx (suc n) → idx ≡ p % s
Aligned-head s p idx n h =
    sym (add-zero idx) ∙ sym (h 0 (omega arith)) ∙ ap (λ t. t % s) (add-zero p)

Aligned-tail : (s p idx n : ℕ) → Aligned s p idx (suc n) → Aligned s (p + 1) (idx + 1) n
Aligned-tail s p idx n h d lt =
    ap (λ t. t % s) (omega arith) ∙ h (suc d) (omega arith) ∙ omega arith

pub splice-put :
    (s : ℕ) (ring : List ℕ) (p idx : ℕ) (xs : List ℕ)
    → Aligned s p idx (length xs)
    → splice ring idx xs ≡ put s ring p xs
splice-put s ring p idx [] slots = refl
splice-put s ring p idx (x ∷ xs) slots =
    splice-put s (set ring idx x) (p + 1) (idx + 1) xs (Aligned-tail s p idx (length xs) slots)
    ∙ ap (λ t. put s (set ring t x) (p + 1) xs) (Aligned-head s p idx (length xs) slots)

pub span-window :
    (s : ℕ) (ring : List ℕ) (p idx n : ℕ) → Aligned s p idx n → span ring idx n ≡ window s ring p n
span-window s ring p idx zero slots = refl
span-window s ring p idx (suc n) slots =
    ap₂ ◌∷◌ (ap (λ t. get_or ring t 0) (Aligned-head s p idx n slots))
      (span-window s ring (p + 1) (idx + 1) n (Aligned-tail s p idx n slots))

pub length-span : (l : List ℕ) (i n : ℕ) → length (span l i n) ≡ n
length-span l i zero = refl
length-span l i (suc n) = ap suc (length-span l (i + 1) n)

pub span_add : (l : List ℕ) (i m n : ℕ) → span l i (m + n) ≡ span l i m ++ span l (i + m) n
span_add l i zero n = ap₂ (span l) (sym (add-zero i)) (zero-add n)
span_add l i (suc m) n =
    ap (span l i) {x = suc m + n} {y = suc (m + n)} (omega arith)
    ∙ ap (◌∷◌ (get_or l i 0))
        (span_add l (i + 1) m n ∙ ap (λ t. span l (i + 1) m ++ span l t n) (omega arith))

pub splice-append :
    (l : List ℕ) (i : ℕ) (xs ys : List ℕ)
    → splice l i (xs ++ ys) ≡ splice (splice l i xs) (i + length xs) ys
splice-append l i [] ys = ap (λ t. splice l t ys) (sym (add-zero i))
splice-append l i (x ∷ xs) ys =
    splice-append (set l i x) (i + 1) xs ys
    ∙ ap (λ t. splice (splice (set l i x) (i + 1) xs) t ys) (omega arith)

-- The unrolled copy is the plain one.
pub unrolled :
    (n : ℕ) (ring : List ℕ) (idx : ℕ) (objs : List ℕ) (i : ℕ)
    → n < u32_mod
    → rest_in
        (bit_and n 3)
        (quads_in (bit_and n (u32_mod - 4) / 4) ring idx objs i)
        (idx + bit_and n (u32_mod - 4))
        objs
        (i + bit_and n (u32_mod - 4))
      ≡ splice ring idx (span objs i n)
unrolled n ring idx objs i small =
    rw (bit_and_mask 2 n, bit_and_quads n small)
      (rest_in-copy_in (n % 4) _ _ objs _ (omega arith)
        ∙ ap (λ r. copy_in (n % 4) r (idx + n / 4 * 4) objs (i + n / 4 * 4))
            (quads_in-copy_in _ ring idx objs i ∙ ap (λ k. copy_in k ring idx objs i) (omega arith))
        ∙ sym (copy_in_add (n / 4 * 4) (n % 4) ring idx objs i)
        ∙ ap (λ k. copy_in k ring idx objs i) (omega arith)
        ∙ copy_in-splice n ring idx objs i)
