-- ===== src/Uref.antt =====
-- include/skp/utils/uref.h: the reference count. It is a 32-bit number; an operation of
-- include/skp/utils/atomic.h on it is one step, and a call is given the counts that its steps find.
pub mod System
mod Tests
use skp.Common.{
  ℕ, ◌+◌, ◌-◌, ◌^◌, Bool, true, false, ◌||◌, ◌&&◌, Option, none, some, List, [], ◌∷◌, ◌==◌, ltb,
  leb, if◌then◌else◌,
}
use skp.Common.Word.{u32_mod, add32, sub32}

-- `INT_MAX`
abbrev pub int_max : ℕ
int_max = 2 ^ 31 - 1

pub uref_init : ℕ
uref_init = 1

pub uref_get : ℕ → ℕ
uref_get count = add32 count 1

-- the count that is left, and whether it is 0
abbrev pub dec_and_test : ℕ → ℕ × Bool
dec_and_test count = (sub32 count 1, sub32 count 1 == 0)

-- the count that is left, and whether `release` is called
pub uref_put : ℕ → ℕ × Bool
uref_put count = dec_and_test count

-- whether the count was another than `u`, and the new one
abbrev pub add_unless : ℕ → ℕ → ℕ → Bool × ℕ
add_unless count a u = if count == u then (false, count) else (true, add32 count a)

-- `uref_put_lock`, and `uref_put_mutex`: `first` is the count at the first test, and `count` the one
-- that is found with the lock.
pub uref_put_lock : ℕ → ℕ → ℕ × Bool
uref_put_lock first count =
    let (done, left) = add_unless first (u32_mod - 1) 1 in
    if done then (left, false) else dec_and_test count

-- One turn of the loop of `__uref_add_not_zero`, for a count `c` that was read: the end, at 0 or at a
-- `BUG`, or the exchange, which finds the count that it expects or another.
pub data Turn : Type 0 where
  refused broken : Turn
  added again : ℕ → Turn

pub add_turn : ℕ → ℕ → ℕ → Turn
add_turn i c current =
    let r = add32 c i in
    if c == 0
    then refused
    else if leb int_max c || (leb (2 ^ 31) r || ltb r c)
    then broken
    else if c == current
    then added r
    else again current

-- The loop, with the counts that its exchanges find: whether it adds, and the last count. `none` stands
-- for a `BUG`, and for a loop that has not come to its end.
pub add_not_zero : ℕ → ℕ → List ℕ → Option (Bool × ℕ)
add_not_zero i c [] = none
add_not_zero i c (current ∷ rest) = elim (add_turn i c current) [
  | refused ↦ some (false, current)
  | broken ↦ none
  | added r ↦ some (true, r)
  | again seen ↦ add_not_zero i seen rest
]
