-- ===== src/Ring/Copy.antt =====
-- src/adt/ring.c, ENQUEUE_PTRS and DEQUEUE_PTRS: copying between the caller's table and the slots,
-- four at a time where the slots do not wrap. A read out of range gives 0, and a write out of
-- range changes nothing; the theorems on the calls rule both out.
pub mod Runs
pub mod Ends
use Prim.Native.Nat.{bit_and}
use skp.Common.{ℕ, zero, suc, ◌+◌, ◌-◌, ◌/◌, List, ltb, ◌==◌, if◌then◌else◌, get_or, set}
use skp.Common.Word.{add32, u32_mod}

-- `for (; …; i++, idx++) ring[idx] = obj_table[i];` with the rounds left
pub copy_in : ℕ → List ℕ → ℕ → List ℕ → ℕ → List ℕ
copy_in zero ring idx objs i = ring
copy_in (suc n) ring idx objs i = copy_in n (set ring idx (get_or objs i 0)) (idx + 1) objs (i + 1)

-- The loop that copies four entries in a round.
pub quads_in : ℕ → List ℕ → ℕ → List ℕ → ℕ → List ℕ
quads_in zero ring idx objs i = ring
quads_in (suc n) ring idx objs i =
    let ring0 = set ring idx (get_or objs i 0) in
    let ring1 = set ring0 (idx + 1) (get_or objs (i + 1) 0) in
    let ring2 = set ring1 (idx + 2) (get_or objs (i + 2) 0) in
    let ring3 = set ring2 (idx + 3) (get_or objs (i + 3) 0) in
    quads_in n ring3 (idx + 4) objs (i + 4)

-- The `switch` on what is left, whose cases fall through.
pub rest_in : ℕ → List ℕ → ℕ → List ℕ → ℕ → List ℕ
rest_in k ring idx objs i =
    if k == 3
    then case2 (set ring idx (get_or objs i 0)) (idx + 1) (i + 1)
    else if k == 2
    then case2 ring idx i
    else if k == 1
    then case1 ring idx i
    else ring
  where
    case1 : List ℕ → ℕ → ℕ → List ℕ
    case1 ring idx i = set ring idx (get_or objs i 0)

    case2 : List ℕ → ℕ → ℕ → List ℕ
    case2 ring idx i = case1 (set ring idx (get_or objs i 0)) (idx + 1) (i + 1)

pub enqueue_ptrs : ℕ → ℕ → List ℕ → ℕ → List ℕ → ℕ → List ℕ
enqueue_ptrs size mask ring prod_head obj_table n =
    let idx = bit_and prod_head mask in
    let quads = bit_and n (u32_mod - 4) in
    let first = size - idx in
    if ltb (add32 idx n) size
    then rest_in (bit_and n 3) (quads_in (quads / 4) ring idx obj_table 0) (idx + quads) obj_table
        quads
    else copy_in (n - first) (copy_in first ring idx obj_table 0) 0 obj_table first

-- The same with the two arrays exchanged: `obj_table[i] = ring[idx]`.
pub dequeue_ptrs : ℕ → ℕ → List ℕ → ℕ → List ℕ → ℕ → List ℕ
dequeue_ptrs size mask ring cons_head obj_table n =
    let idx = bit_and cons_head mask in
    let quads = bit_and n (u32_mod - 4) in
    let first = size - idx in
    if ltb (add32 idx n) size
    then rest_in (bit_and n 3) (quads_in (quads / 4) obj_table 0 ring idx) quads ring (idx + quads)
    else copy_in (n - first) (copy_in first obj_table 0 ring idx) first ring 0
