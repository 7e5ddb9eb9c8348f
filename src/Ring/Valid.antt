-- ===== src/Ring/Valid.antt =====
-- The invariant of a ring between calls, and what the fields then say.
use native.Mathlib.Nat.{pow-le-pow_right}
use skp.Common.{ℕ, suc, ◌-◌, ◌^◌, ◌≤◌, ◌<◌, ◌≡◌, ◌==◌, List, false, length, arith}
use skp.Common.Word.{sub32, u32_mod}
use skp.Ring.{Ringb, Outcome, Behavior, fixed, variable, allowed}
use skp.Ring.Queue
use skp.Ring.Window.{window, length-window}

-- No call is under way: each tail has caught up with its head.
pub record IsValid (r : Ringb) : Type 0 where
  pub bits : ℕ
  pub bits_le : bits ≤ 31
  pub sized : r.size ≡ 2 ^ bits
  pub masked : r.mask ≡ 2 ^ bits - 1
  pub capacity_lt : r.capacity < 2 ^ bits
  pub stored : length r.ring ≡ 2 ^ bits
  pub prod_head : r.prod.head ≡ r.prod.tail
  pub cons_head : r.cons.head ≡ r.cons.tail
  pub prod_lt : r.prod.tail < u32_mod
  pub cons_lt : r.cons.tail < u32_mod
  pub used_le : sub32 r.prod.tail r.cons.tail ≤ r.capacity

-- the entries in the ring, oldest first
abbrev pub contents : Ringb → List ℕ
contents r = window r.size r.ring r.cons.tail (sub32 r.prod.tail r.cons.tail)

pub length-contents : (r : Ringb) → length (contents r) ≡ sub32 r.prod.tail r.cons.tail
length-contents r = length-window r.size r.ring r.cons.tail (sub32 r.prod.tail r.cons.tail)

-- what a caller sees of a call: how many moved, how many are left, the contents and its table
abbrev pub view : Outcome → ℕ × ℕ × List ℕ × List ℕ
view out = (out.moved, out.left, contents out.ring, out.table)

pub pow_le_31 : (k : ℕ) → k ≤ 31 → 2 ^ k ≤ 2 ^ 31
pow_le_31 k h = pow-le-pow_right (omega arith) h

pub suc-ne-zero : (m : ℕ) → (suc m == 0) ≡ false
suc-ne-zero m = ground arith

-- The code moves what the queue promises to move.
pub allowed-movable : (b : Behavior) (n room : ℕ) → allowed b n room ≡ Queue.movable b n room
unfolding Queue.movable
allowed-movable fixed n room = ground arith
allowed-movable variable n room = ground arith

pub allowed-le : (b : Behavior) (n room : ℕ) → (allowed b n room ≤ n) × (allowed b n room ≤ room)
allowed-le fixed n room = ground arith
allowed-le variable n room = ground arith
