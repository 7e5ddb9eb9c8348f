-- ===== src/HeapSort/Bytes.antt =====
-- The loops of src/algorithm/heap_sort.c on offsets in bytes come to those on elements, where the array has at most
-- 2 ^ 30 bytes.
use mathlib.Core.Path.{ap₂}
use native.Mathlib.Nat.{mul-div_cancel, mul-lt-mul_of_pos_right, mul-le-mul_right}
use skp.Common.{
  ℕ, zero, suc, ◌+◌, ◌-◌, ◌*◌, ◌/◌, ◌^◌, ◌≤◌, ◌<◌, ◌≡◌, refl, sym, ap, ◌∙◌, Bool, true, false, ◌&&◌,
  List, ltb, if◌then◌else◌, get_or, set, arith, dec_lt,
}
use skp.HeapSort.{to_size, to_int, add64, sub64, left_child, step_down, elem_at, swap, child, sift}
use skp.HeapSort.Elements

module _ (size : ℕ) (some_size : 0 < size) where
  pub place : (j : ℕ) → j * size / size ≡ j
  place j = mul-div_cancel j some_size

  ltb_scale : (x y : ℕ) → ltb (x * size) (y * size) ≡ ltb x y
  ltb_scale x y = elim (dec_lt x y) [
    | yes lt ↦
        let up : x * size < y * size = mul-lt-mul_of_pos_right lt some_size in
        ground (arith, up, lt)
    | no ge ↦
        let up : y * size ≤ x * size = mul-le-mul_right size (omega (arith, ge)) in
        ground (arith, up, ge)
  ]

  left_child_lem :
      (j : ℕ) → j * size < 2 ^ 30 → size ≤ 2 ^ 30 → left_child size (j * size) ≡ (j * 2 + 1) * size
  left_child_lem j small fits =
      let next : (j * 2 + 1) * size ≡ j * size * 2 + size = omega arith in
      ground (arith, next, small, fits)

  pub last_lem :
      (m : ℕ) → 0 < m → m * size ≤ 2 ^ 30 → sub64 (to_size (m * size)) size ≡ (m - 1) * size
  last_lem zero some bound = elim some [ ]
  last_lem (suc m) some bound =
      let next : suc m * size ≡ m * size + size = omega arith in ground (arith, next, bound)

  pub step_down-suc : (i : ℕ) → suc i * size ≤ 2 ^ 30 → step_down size (suc i * size) ≡ i * size
  step_down-suc i bound =
      let next : suc i * size ≡ i * size + size = omega arith in ground (arith, next, bound)

  pub step_down-zero : size ≤ 2 ^ 30 → ltb (step_down size 0) (2 ^ 31) ≡ false
  step_down-zero fits = ground (arith, some_size, fits)

  pub scaled : (x y : ℕ) → x ≤ y → y * size ≤ 2 ^ 30 → x * size ≤ 2 ^ 30
  scaled x y le bound = omega (arith, mul-le-mul_right size le, bound)

  left_bytes :
      (m j : ℕ) → j < m → m * size ≤ 2 ^ 30 → left_child size (j * size) ≡ (j * 2 + 1) * size
  left_bytes m j inside bound =
      let behind : suc j * size ≤ 2 ^ 30 = scaled (suc j) m inside bound in
      let next : suc j * size ≡ j * size + size = omega arith in
      left_child_lem j (omega (arith, behind, next, some_size)) (omega (arith, behind, next))

  goes_on :
      (m j : ℕ)
      → j < m
      → m * size ≤ 2 ^ 30
      → ltb (left_child size (j * size)) (to_size (m * size)) ≡ ltb (j * 2 + 1) m
  goes_on m j inside bound =
      ap₂ ltb (left_bytes m j inside bound) (ground (arith, bound)) ∙ ltb_scale (j * 2 + 1) m

  turn_lem :
      (c : ℕ) (b : Bool)
      → suc c * size ≤ 2 ^ 30
      → (if b then to_int (add64 (to_size (c * size)) size) else c * size)
        ≡ (if b then c + 1 else c) * size
  turn_lem c true bound =
      let next : (c + 1) * size ≡ c * size + size = omega arith in
      let same : suc c * size ≡ c * size + size = omega arith in ground (arith, next, same, bound)
  turn_lem c false bound = refl

  module _ {ℓ} {A : Type ℓ} (less : A → A → Bool) (d : A) where
    elem_lem : (a : List A) (j : ℕ) → elem_at less d size a (j * size) ≡ get_or a j d
    elem_lem a j = ap (λ t. get_or a t d) (place j)

    pub swap_lem :
        (a : List A) (i j : ℕ)
        → swap less d size a (i * size) (j * size) ≡ Elements.swap less d a i j
    swap_lem a i j = ap₂ (λ x y. set (set a x (get_or a y d)) y (get_or a x d)) (place i) (place j)

    child_bytes :
        (a : List A) (m j : ℕ)
        → j * 2 + 1 < m
        → m * size ≤ 2 ^ 30
        → child less d size a (m * size) (j * size) ≡ Elements.child less d a m j * size
    unfolding child
    child_bytes a m j inside bound =
        let test : ℕ → Bool = λ c.
          ltb (to_size c) (sub64 (to_size (m * size)) size)
          && less (elem_at less d size a (to_size c)) (elem_at less d size a (to_size c + size)) in
        let top : suc (j * 2 + 1) * size ≤ 2 ^ 30 = scaled (suc (j * 2 + 1)) m inside bound in
        let low : (j * 2 + 1) * size ≤ 2 ^ 30 =
          scaled (j * 2 + 1) m (omega (arith, inside)) bound in
        let left : to_int (left_child size (j * size)) ≡ (j * 2 + 1) * size =
          ap to_int (left_bytes m j (omega (arith, inside)) bound) ∙ ground (arith, low) in
        let plain : to_size ((j * 2 + 1) * size) ≡ (j * 2 + 1) * size = ground (arith, low) in
        let next : (j * 2 + 1) * size + size ≡ (j * 2 + 1 + 1) * size = omega (arith, bound) in
        let seen : less (elem_at less d size a (to_size ((j * 2 + 1) * size)))
              (elem_at less d size a (to_size ((j * 2 + 1) * size) + size))
            ≡ less (get_or a (j * 2 + 1) d) (get_or a (j * 2 + 1 + 1) d) =
          ap₂ less (ap (elem_at less d size a) plain ∙ elem_lem a (j * 2 + 1)) (
            ap (λ t. elem_at less d size a (t + size)) plain
            ∙ ap (elem_at less d size a) next
            ∙ elem_lem a (j * 2 + 1 + 1)) in
        let few : ltb (to_size ((j * 2 + 1) * size)) (sub64 (to_size (m * size)) size)
            ≡ ltb (j * 2 + 1) (m - 1) =
          ap₂ ltb plain (last_lem m (omega (arith, inside)) bound)
          ∙ ltb_scale (j * 2 + 1) (m - 1) in
        ap (λ c. if test c then to_int (add64 (to_size c) size) else c) left
        ∙ ap
            (λ b.
              if b then to_int (add64 (to_size ((j * 2 + 1) * size)) size) else (j * 2 + 1) * size)
            (ap₂ (λ x y. x && y) few seen)
        ∙ turn_lem (j * 2 + 1)
            (ltb (j * 2 + 1) (m - 1) && less (get_or a (j * 2 + 1) d) (get_or a (j * 2 + 1 + 1) d))
            top

    pub child-bound : (a : List A) (m j : ℕ) → j * 2 + 1 < m → Elements.child less d a m j < m
    child-bound a m j inside = ground (arith, inside)

    pub sift_bytes :
        (k : ℕ) (a : List A) (m j : ℕ)
        → j < m
        → m * size ≤ 2 ^ 30
        → sift less d size k a (m * size) (j * size) ≡ Elements.sift less d k a m j
    unfolding sift Elements.sift
    sift_bytes zero a m j inside bound = refl
    sift_bytes (suc k) a m j inside bound =
        let n = m * size in
        let r = j * size in
        let e = Elements.child less d a m j in
        let sunk : ℕ → List A = λ c. sift less d size k (swap less d size a r c) n c in
        let turn : ℕ → Bool → List A = λ c b.
          if b
          then if less (elem_at less d size a r) (elem_at less d size a c) then sunk c else a
          else a in
        let step : ltb (left_child size r) (to_size n) ≡ ltb (j * 2 + 1) m =
          goes_on m j inside bound in
        let rest = Elements.sift less d k (Elements.swap less d a j e) m e in
        let stop : Bool → List A =
          λ b. if b then if less (get_or a j d) (get_or a e d) then rest else a else a in
        elim (dec_lt (j * 2 + 1) m) [
          | yes more ↦
              let sinks : sunk (e * size) ≡ rest =
                ap (λ t. sift less d size k t n (e * size)) (swap_lem a j e)
                ∙ sift_bytes k (Elements.swap less d a j e) m e (child-bound a m j more) bound in
              ap (turn (child less d size a n r)) step
              ∙ ap (λ c. turn c (ltb (j * 2 + 1) m)) (child_bytes a m j more bound)
              ∙ ap₂ (λ b s. if ltb (j * 2 + 1) m then if b then s else a else a)
                  (ap₂ less (elem_lem a j) (elem_lem a e)) sinks
          | no done ↦
              let ends : ltb (j * 2 + 1) m ≡ false = ground (arith, done) in
              ap (turn (child less d size a n r)) (step ∙ ends) ∙ sym (ap stop ends)
        ]
