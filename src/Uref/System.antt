-- ===== src/Uref/System.antt =====
-- Threads that share an object with a count of include/skp/utils/uref.h.
use skp.Common.{
  ℕ, suc, ◌+◌, ◌-◌, ◌<◌, ◌≡◌, ◌≢◌, ◌⊎◌, refl, ap, ◌∙◌, Bool, true, false, Option, none, some, List,
  [], ◌∷◌, ◌==◌, if◌then◌else◌, arith, ℕ_discrete,
}
use skp.Common.Word.{u32_mod, add32, sub32}
use skp.Uref.{
  int_max, uref_init, uref_get, uref_put, uref_put_lock, Turn, refused, broken, added, again,
  add_turn, add_not_zero,
}

-- The count, the references that threads hold, and how often `release` was called.
pub record System : Type 0 where
  pub count : ℕ
  pub holders : ℕ
  pub released : ℕ

-- what is left when a reference was given back
abbrev pub gave_back : System → ℕ × Bool → System
gave_back s (count, last) = record {
  count = count;
  holders = s.holders - 1;
  released = if last then suc s.released else s.released;
}

-- A reference is taken by a thread that has one, while there are fewer than 2 ^ 32 - 1, or by a thread that
-- has none with `uref_get_unless_zero`, in whose last turn the count `c` may have been read long
-- before. In `uref_put_lock` the first test may have been long before, if it found 1.
pub data Step : System → System → Type 0 where
  get :
      (s : System)
      → 0 < s.holders
      → suc s.holders < u32_mod
      → Step s (record s { count = uref_get s.count; holders = suc s.holders })
  get_unless_zero :
      (s : System) (c r : ℕ)
      → add_turn 1 c s.count ≡ added r
      → Step s (record s { count = r; holders = suc s.holders })
  put : (s : System) → 0 < s.holders → Step s (gave_back s (uref_put s.count))
  put_lock :
      (s : System) (first : ℕ)
      → 0 < s.holders
      → (first ≡ 1) ⊎ (first ≡ s.count)
      → Step s (gave_back s (uref_put_lock first s.count))

abbrev pub initial : System
initial = record { count = uref_init; holders = 1; released = 0 }

pub data Reachable : System → Type 0 where
  start : Reachable initial
  next : {s t : System} → Reachable s → Step s t → Reachable t

-- The count is that of the references, and `release` was called once exactly when there are none.
pub record IsValid (s : System) : Type 0 where
  pub counted : s.count ≡ s.holders
  pub bounded : s.holders < u32_mod
  pub once : s.released + (if s.holders == 0 then 0 else 1) ≡ 1

-- a turn that adds has found a count that is not 0, and below INT_MAX
added_lem :
    (c current r : ℕ)
    → add_turn 1 c current ≡ added r
    → (0 < current) × (current < int_max) × (r ≡ suc current)
unfolding add_turn
added_lem c current r h = (ground (arith, h), ground (arith, h), ground (arith, h))

gave_back-IsValid :
    (s : System) (count : ℕ) (last : Bool)
    → IsValid s
    → 0 < s.holders
    → suc count ≡ s.count
    → last ≡ (count == 0)
    → IsValid (gave_back s (count, last))
gave_back-IsValid s count last v some_holder e f = record {
  counted = omega (arith, v.counted, e);
  bounded = omega (arith, v.bounded);
  once = ground (arith, v.once, v.counted, e, f, some_holder);
}

put-IsValid : (s : System) → IsValid s → 0 < s.holders → IsValid (gave_back s (uref_put s.count))
unfolding uref_put
put-IsValid s v some_holder =
    let fewer : suc (sub32 s.count 1) ≡ s.count =
      omega (arith, v.counted, v.bounded, some_holder) in
    gave_back-IsValid s (sub32 s.count 1) (sub32 s.count 1 == 0) v some_holder fewer refl

put_lock-IsValid :
    (s : System) (first : ℕ)
    → IsValid s
    → 0 < s.holders
    → (first ≡ 1) ⊎ (first ≡ s.count)
    → IsValid (gave_back s (uref_put_lock first s.count))
unfolding uref_put_lock uref_put
put_lock-IsValid s first v some_holder which = elim (ℕ_discrete first 1) [
  | yes one ↦
      let slow : uref_put_lock first s.count ≡ uref_put s.count =
        ap (λ f. uref_put_lock f s.count) one in
      rw slow (put-IsValid s v some_holder)
  | no more ↦
      let here : first ≡ s.count = ground (arith, which, more) in
      let fast : uref_put_lock first s.count ≡ (add32 s.count (u32_mod - 1), false) =
        ground (arith, more, here) in
      let fewer : suc (add32 s.count (u32_mod - 1)) ≡ s.count =
        omega (arith, v.counted, v.bounded, some_holder) in
      let left : add32 s.count (u32_mod - 1) ≢ 0 = omega (arith, here, more, fewer) in
      rw fast (
        gave_back-IsValid s (add32 s.count (u32_mod - 1)) false v some_holder fewer
          (ground (arith, left)))
]

step-IsValid : {s t : System} → IsValid s → Step s t → IsValid t
unfolding uref_get
step-IsValid v (get s some_holder room) = record {
  counted = omega (arith, v.counted, room);
  bounded = room;
  once = ground (arith, v.once, some_holder);
}
step-IsValid v (get_unless_zero s c r h) =
    let (some_ref, below, more) = added_lem c s.count r h in
    record {
      counted = omega (arith, more, v.counted);
      bounded = omega (arith, v.counted, below);
      once = ground (arith, v.once, v.counted, some_ref);
    }
step-IsValid v (put s some_holder) = put-IsValid s v some_holder
step-IsValid v (put_lock s first some_holder which) = put_lock-IsValid s first v some_holder which

Reachable-IsValid : {s : System} → Reachable s → IsValid s
unfolding uref_init
Reachable-IsValid start = record { counted = refl; bounded = omega arith; once = refl }
Reachable-IsValid (next r step) = step-IsValid (Reachable-IsValid r) step

-- However the threads take and give back references by these steps, of which a `uref_get` is made with
-- fewer than 2 ^ 32 - 1 of them, the count is the number of references, and `release` was called once if
-- there are none and was not called if there are some.
pub release_once :
    (s : System)
    → Reachable s
    → (s.count ≡ s.holders) × (s.released ≡ (if s.holders == 0 then 1 else 0))
release_once s r = let v = Reachable-IsValid r in (v.counted, ground (arith, v.once))

nothing_left : {s t : System} → IsValid s → s.holders ≡ 0 → ¬ Step s t
nothing_left v e (get s some_holder room) = omega (arith, e, some_holder)
nothing_left v e (get_unless_zero s c r h) =
    omega (arith, (added_lem c s.count r h).0, v.counted, e)
nothing_left v e (put s some_holder) = omega (arith, e, some_holder)
nothing_left v e (put_lock s first some_holder which) = omega (arith, e, some_holder)

refuses :
    (c current : ℕ) (rest : List ℕ)
    → c ≡ 0
    → add_not_zero 1 c (current ∷ rest) ≡ some (false, current)
unfolding add_not_zero add_turn
refuses c current rest e = ap (λ n. add_not_zero 1 n (current ∷ rest)) e

-- Once `release` was called, no thread takes or gives back a reference any more, and
-- `__uref_add_not_zero` on the count returns false at once.
pub stays_released :
    (s t : System) (current : ℕ) (rest : List ℕ)
    → Reachable s
    → 0 < s.released
    → (¬ Step s t) × (add_not_zero 1 s.count (current ∷ rest) ≡ some (false, current))
stays_released s t current rest r called =
    let v = Reachable-IsValid r in
    let gone : s.holders ≡ 0 = ground (arith, v.once, called) in
    (nothing_left v gone, refuses s.count current rest (v.counted ∙ gone))

-- While nothing else touches the count, `__uref_add_not_zero` returns in its first turn: it adds 1 to a
-- count that is not 0 and below INT_MAX, and returns true.
add_not_zero_lem : (c : ℕ) → 0 < c → c < int_max → add_not_zero 1 c (c ∷ []) ≡ some (true, suc c)
unfolding add_not_zero add_turn
add_not_zero_lem c some_ref below =
    let turn : add_turn 1 c c ≡ added (suc c) = ground (arith, some_ref, below) in ap after turn
  where
    after : Turn → Option (Bool × ℕ)
    after refused = some (false, c)
    after broken = none
    after (added r) = some (true, r)
    after (again seen) = add_not_zero 1 seen []
