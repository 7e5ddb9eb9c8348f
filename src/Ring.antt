-- ===== src/Ring.antt =====
-- src/adt/ring.c and include/skp/adt/ring.h: a ring of pointers with separate heads and tails for
-- producers and consumers. Positions are uint32_t that run on and wrap; a slot is a position
-- masked by `size - 1`. These are the calls as one thread makes them, with no other thread between
-- its loads and its stores.
pub mod Copy
pub mod Window
pub mod Queue
pub mod Valid
pub mod Positions
pub mod Init
pub mod Count
pub mod Api
pub mod Client
mod Tests
pub mod Enqueue
pub mod Dequeue
use Prim.Native.Nat.{bit_and}
use skp.Common.{
  ℕ, zero, suc, ◌-◌, ◌%◌, Bool, true, false, not, ◌||◌, Option, none, some, List, ltb, ◌==◌,
  if◌then◌else◌,
}
use skp.Common.Word.{add32, sub32, u32_mod}
use skp.Bitops.{is_power_of_2, roundup_pow_of_two}
use skp.Ring.Copy.{enqueue_ptrs, dequeue_ptrs}

-- `RINGB_F_*`, `RINGB_M_*` (a single producer or consumer, or several) and `RINGB_Q_*`
abbrev pub f_sp_enq : ℕ
f_sp_enq = 0x0001

abbrev pub f_sc_deq : ℕ
f_sc_deq = 0x0002

abbrev pub f_exact_sz : ℕ
f_exact_sz = 0x0004

abbrev pub sz_mask : ℕ
sz_mask = 0x7fffffff

pub data Behavior : Type 0 where
  fixed variable : Behavior

pub record Headtail : Type 0 where
  pub head : ℕ
  pub tail : ℕ
  pub single : Bool

-- `struct ringb`; `ring` is the array of pointers behind it. The padding is left out, and so is
-- the `user` pointer, which no function here reads.
pub record Ringb : Type 0 where
  pub flags : ℕ
  pub size : ℕ
  pub mask : ℕ
  pub capacity : ℕ
  pub prod : Headtail
  pub cons : Headtail
  pub ring : List ℕ

-- 0, or -EINVAL
pub data Status : Type 0 where
  ok einval : Status

-- `flags & f`
abbrev pub has_flag : ℕ → ℕ → Bool
has_flag flags f = not (bit_and flags f == 0)

-- `memset` clears the header, not the array behind it.
pub init : Ringb → ℕ → ℕ → Status × Ringb
init r count flags =
    if has_flag flags (u32_mod - 8)
    then (einval, r)
    else if has_flag flags f_exact_sz
    then (ok, record cleared { size = rounded; mask = sub32 rounded 1; capacity = count })
    else if not (is_power_of_2 count) || ltb sz_mask count
    then (einval, cleared)
    else (ok, record cleared { size = count; mask = sub32 count 1; capacity = sub32 count 1 })
  where
    rounded : ℕ
    rounded = roundup_pow_of_two (add32 count 1) % u32_mod

    cleared : Ringb
    cleared = record {
      flags = flags;
      size = 0;
      mask = 0;
      capacity = 0;
      prod = record { head = 0; tail = 0; single = has_flag flags f_sp_enq };
      cons = record { head = 0; tail = 0; single = has_flag flags f_sc_deq };
      ring = r.ring;
    }

pub count : Ringb → ℕ
count r =
    let used = bit_and (sub32 r.prod.tail r.cons.tail) r.mask in
    if ltb r.capacity used then r.capacity else used

pub free_count : Ringb → ℕ
unfolding count
free_count r = sub32 r.capacity (count r)

pub full : Ringb → Bool
unfolding free_count
full r = free_count r == 0

pub empty : Ringb → Bool
unfolding count
empty r = count r == 0

pub reset : Ringb → Ringb
reset r = record r {
  prod = record { head = 0; tail = 0; single = r.prod.single };
  cons = record { head = 0; tail = 0; single = r.cons.single };
}

-- How many of `n` entries to move when `room` are there.
abbrev pub allowed : Behavior → ℕ → ℕ → ℕ
allowed fixed n room = if ltb room n then 0 else n
allowed variable n room = if ltb room n then room else n

-- What `__ringb_move_*_head` hands back: the number moved, the old head and the new one, what was
-- there before, and the head that is stored.
pub record Moved : Type 0 where
  pub n : ℕ
  pub old_head : ℕ
  pub new_head : ℕ
  pub entries : ℕ
  pub stored : ℕ

-- `cmpxchg` on a value that holds `cur`: whether it succeeds, and the value afterwards.
abbrev pub cmpxchg : ℕ → ℕ → ℕ → Bool × ℕ
cmpxchg cur old new = if cur == old then (true, new) else (false, cur)

-- The loop of `__ringb_move_prod_head`, on fuel: it goes round when the exchange fails.
pub move_prod_head : ℕ → Ringb → Bool → ℕ → Behavior → Option Moved
move_prod_head zero r is_sp n behavior = none
move_prod_head (suc fuel) r is_sp n behavior =
    let old_head = r.prod.head in
    let free = sub32 r.capacity (sub32 old_head r.cons.tail) in
    let m = allowed behavior n free in
    let new_head = add32 old_head m in
    let (won, head) = cmpxchg r.prod.head old_head new_head in
    let again = move_prod_head fuel r is_sp n behavior in
    if m == 0
    then some (record {
      n = 0;
      old_head = old_head;
      new_head = old_head;
      entries = free;
      stored = old_head;
    })
    else if is_sp
    then some (record {
      n = m;
      old_head = old_head;
      new_head = new_head;
      entries = free;
      stored = new_head;
    })
    else if won
    then some
        (record { n = m; old_head = old_head; new_head = new_head; entries = free; stored = head })
    else again

pub move_cons_head : ℕ → Ringb → Bool → ℕ → Behavior → Option Moved
move_cons_head zero r is_sc n behavior = none
move_cons_head (suc fuel) r is_sc n behavior =
    let old_head = r.cons.head in
    let entries = sub32 r.prod.tail old_head in
    let m = allowed behavior n entries in
    let new_head = add32 old_head m in
    let (won, head) = cmpxchg r.cons.head old_head new_head in
    let again = move_cons_head fuel r is_sc n behavior in
    if m == 0
    then some (record {
      n = 0;
      old_head = old_head;
      new_head = old_head;
      entries = entries;
      stored = old_head;
    })
    else if is_sc
    then some (record {
      n = m;
      old_head = old_head;
      new_head = new_head;
      entries = entries;
      stored = new_head;
    })
    else if won
    then some (record {
      n = m;
      old_head = old_head;
      new_head = new_head;
      entries = entries;
      stored = head;
    })
    else again

-- `__ringb_update_tail`: unless single, wait until the tail is the old value; `none` stands for
-- waiting on for ever, since no other thread moves the tail here.
pub update_tail : Headtail → ℕ → ℕ → Bool → Option Headtail
update_tail ht old_val new_val single =
    if single || (ht.tail == old_val) then some (record ht { tail = new_val }) else none

-- What a call returns: the number of entries moved, what goes out through `free_space` or
-- `available`, the ring, and the caller's table (which only a dequeue writes).
pub record Outcome : Type 0 where
  pub moved : ℕ
  pub left : ℕ
  pub ring : Ringb
  pub table : List ℕ

pub do_enqueue : Ringb → List ℕ → ℕ → Behavior → Bool → Option Outcome
unfolding move_prod_head update_tail
do_enqueue r obj_table n behavior is_sp = elim (move_prod_head 1 r is_sp n behavior) [
  | none ↦ none
  | some mv ↦
      if mv.n == 0
      then some (record { moved = 0; left = sub32 mv.entries 0; ring = r; table = obj_table })
      else elim (update_tail (record r.prod { head = mv.stored }) mv.old_head mv.new_head is_sp) [
        | none ↦ none
        | some prod ↦ some (record {
          moved = mv.n;
          left = sub32 mv.entries mv.n;
          ring = record r {
            prod = prod;
            ring = enqueue_ptrs r.size r.mask r.ring mv.old_head obj_table mv.n;
          };
          table = obj_table;
        })
      ]
]

pub do_dequeue : Ringb → List ℕ → ℕ → Behavior → Bool → Option Outcome
unfolding move_cons_head update_tail
do_dequeue r obj_table n behavior is_sc = elim (move_cons_head 1 r is_sc n behavior) [
  | none ↦ none
  | some mv ↦
      if mv.n == 0
      then some (record { moved = 0; left = sub32 mv.entries 0; ring = r; table = obj_table })
      else elim (update_tail (record r.cons { head = mv.stored }) mv.old_head mv.new_head is_sc) [
        | none ↦ none
        | some cons ↦ some (record {
          moved = mv.n;
          left = sub32 mv.entries mv.n;
          ring = record r { cons = cons };
          table = dequeue_ptrs r.size r.mask r.ring mv.old_head obj_table mv.n;
        })
      ]
]
