-- ===== src/Rwsem.antt =====
-- src/utils/rwsem.c and include/skp/utils/rwsem.h: the read-write semaphore. Each function here is
-- what one call does while it holds the semaphore's spin lock; where a call gives the lock up to
-- sleep on its futex, what it does after that is a function of its own.
pub mod System
pub mod Invariant
pub mod Release
pub mod Safety
mod Tests
use skp.Common.{
  ℕ, zero, suc, ◌+◌, Bool, true, false, not, ◌&&◌, ◌||◌, Option, none, some, List, [], ◌∷◌, ◌++◌,
  ◌==◌, if◌then◌else◌,
}
use skp.Common.Int.{ℤ, pos, negsuc, increment, decrement, add_ℕ, is_zero, is_positive, is_natural}

-- RWSEM_WAITING_FOR_READ and RWSEM_WAITING_FOR_WRITE
pub data Mode : Type 0 where
  read write : Mode

-- `struct rwsem_waiter`: `id` stands for its address. The flags, an int, are the mode and, in the bits of
-- RWSEM_WAITING_MASK, how often it was woken since they were set. The count has no bound here: the model is that of
-- the code as long as no waiter is woken 2 ^ 28 times before it runs, from where on the count would carry into
-- the mode.
pub record Waiter : Type 0 where
  pub id : ℕ
  pub mode : Mode
  pub woken : ℕ

-- `struct rw_semaphore`, less the spin lock. `activity` is an int, here without a bound: the model is that of the code
-- as long as fewer than 2 ^ 31 readers hold the lock.
pub record Sem : Type 0 where
  pub activity : ℤ
  pub wait_list : List Waiter

abbrev pub list_empty : List Waiter → Bool
list_empty [] = true
list_empty (w ∷ ws) = false

pub init_rwsem : Sem
init_rwsem = record { activity = pos 0; wait_list = [] }

-- `__wake_one_waiter`: add to the flags, then the futex call.
abbrev pub wake_one_waiter : Waiter → Waiter
wake_one_waiter w = record w { woken = w.woken + 1 }

-- The loop of `__rwsem_do_wake` from a reader on: it takes readers off the list and wakes them, up to
-- the first writer. It gives the readers that were woken, and the list that is left.
pub wake_readers : List Waiter → List Waiter × List Waiter
wake_readers [] = ([], [])
wake_readers (w ∷ ws) =
    let (woken, left) = wake_readers ws in
    elim w.mode [ read ↦ (wake_one_waiter w ∷ woken, left) | write ↦ ([], w ∷ ws) ]

abbrev pub count : List Waiter → ℕ
count [] = 0
count (w ∷ ws) = suc (count ws)

-- `__rwsem_do_wake` on a list that is not empty; beside the semaphore, the readers that were woken.
pub do_wake : Sem → Bool → Sem × List Waiter
do_wake sem wakewrite = elim sem.wait_list [
  | [] ↦ (sem, [])
  | w ∷ ws ↦ elim w.mode [
    | write ↦ (if wakewrite then record sem { wait_list = wake_one_waiter w ∷ ws } else sem, [])
    | read ↦
        let (woken, left) = wake_readers (w ∷ ws) in
        (record { activity = add_ℕ sem.activity (count woken); wait_list = left }, woken)
  ]
]

-- `__rwsem_wake_one_writer` on a list that is not empty; `none` is its BUG_ON.
pub wake_one_writer : Sem → Option Sem
wake_one_writer sem = elim sem.wait_list [
  | [] ↦ none
  | w ∷ ws ↦ elim w.mode [
    | read ↦ none
    | write ↦ some (record sem { wait_list = wake_one_waiter w ∷ ws })
  ]
]

-- `down_read` up to its loop: whether the lock was granted at once.
pub down_read : Sem → ℕ → Bool × Sem
down_read sem id =
    if is_positive sem.activity || (is_zero sem.activity && list_empty sem.wait_list)
    then (true, record sem { activity = increment sem.activity })
    else (
      false,
      record sem { wait_list = sem.wait_list ++ (record { id = id; mode = read; woken = 0 } ∷ []) },
    )

-- The test that ends the loop of `down_read`: somebody has woken the waiter.
abbrev pub was_woken : Waiter → Bool
was_woken w = not (w.woken == 0)

pub down_read_trylock : Sem → Bool × Sem
down_read_trylock sem =
    if is_natural sem.activity && list_empty sem.wait_list
    then (true, record sem { activity = increment sem.activity })
    else (false, sem)

-- `list_del`
abbrev pub list_del : ℕ → List Waiter → List Waiter
list_del id [] = []
list_del id (w ∷ ws) = if w.id == id then ws else w ∷ list_del id ws

-- `waiter.flags = RWSEM_WAITING_FOR_WRITE` on the waiter at `id`
abbrev pub reset_flags : ℕ → List Waiter → List Waiter
reset_flags id [] = []
reset_flags id (w ∷ ws) =
    if w.id == id then record { id = id; mode = write; woken = 0 } ∷ ws else w ∷ reset_flags id ws

-- One turn of the loop of `down_write`: whether the lock was taken.
pub write_turn : Sem → ℕ → Bool × Sem
write_turn sem id =
    if is_zero sem.activity
    then (true, record { activity = negsuc 0; wait_list = list_del id sem.wait_list })
    else (false, sem)

-- `down_write` up to the first sleep
pub down_write : Sem → ℕ → Bool × Sem
down_write sem id =
    write_turn
      (record sem {
        wait_list = sem.wait_list ++ (record { id = id; mode = write; woken = 0 } ∷ []);
      })
      id

-- `down_write` from a return of `futex_wait` up to the next sleep
pub write_again : Sem → ℕ → Bool × Sem
write_again sem id = write_turn (record sem { wait_list = reset_flags id sem.wait_list }) id

pub down_write_trylock : Sem → Bool × Sem
down_write_trylock sem =
    if is_zero sem.activity then (true, record sem { activity = negsuc 0 }) else (false, sem)

pub up_read : Sem → Option Sem
up_read sem =
    let less = record sem { activity = decrement sem.activity } in
    if is_zero less.activity && not (list_empty less.wait_list)
    then wake_one_writer less
    else some less

pub up_write : Sem → Sem × List Waiter
up_write sem =
    let free = record sem { activity = pos 0 } in
    if not (list_empty free.wait_list) then do_wake free true else (free, [])

pub downgrade_write : Sem → Sem × List Waiter
downgrade_write sem =
    let shared = record sem { activity = pos 1 } in
    if not (list_empty shared.wait_list) then do_wake shared false else (shared, [])
