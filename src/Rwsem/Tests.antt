-- ===== src/Rwsem/Tests.antt =====
-- A run of the semaphore of src/utils/rwsem.c, and its theorems at the states of the run.
use skp.Common.{◌≤◌, ◌<◌, ◌≡◌, ◌⊎◌, refl, [], ◌∷◌, length, some, true}
use skp.Common.Int.{pos}
use skp.Rwsem.{
  Sem, Waiter, write, init_rwsem, down_read, down_write, write_again, write_turn, up_read,
  wake_one_writer,
}
use skp.Rwsem.System.{System, Reach, start, later, initial, read_lock, write_lock, read_unlock}
use skp.Rwsem.Safety.{mutual_exclusion, no_lost_wakeup, up_read_returns}

abbrev waiting : Waiter
waiting = record { id = 2; mode = write; woken = 0 }

-- thread 1 reads
abbrev reading : System
reading = record {
  sem = record { activity = pos 1; wait_list = [] };
  readers = 1 ∷ [];
  writers = [];
}

-- and thread 2 waits to write
abbrev contended : System
contended = record reading { sem = record { activity = pos 1; wait_list = waiting ∷ [] } }

-- thread 1 is done
abbrev handed_over : System
handed_over = record {
  sem = record { activity = pos 0; wait_list = record waiting { woken = 1 } ∷ [] };
  readers = [];
  writers = [];
}

reading-Reach : Reach reading
unfolding init_rwsem down_read
reading-Reach = later start (read_lock initial 1)

contended-Reach : Reach contended
unfolding down_write write_turn
contended-Reach = later reading-Reach (write_lock reading 2)

handed_over-Reach : Reach handed_over
unfolding up_read wake_one_writer
handed_over-Reach = later contended-Reach (read_unlock contended 1 handed_over.sem refl refl)

mutual_exclusion_example :
    (length contended.writers ≤ 1)
    × ((length contended.readers ≡ 0) ⊎ (length contended.writers ≡ 0))
mutual_exclusion_example = mutual_exclusion contended-Reach

no_lost_wakeup_example : (write ≡ write) × (◌<◌ 0 1) × ((write_again handed_over.sem 2).0 ≡ true)
no_lost_wakeup_example = no_lost_wakeup handed_over-Reach refl refl

up_read_returns_example : (sem : Sem) × (up_read contended.sem ≡ some sem)
up_read_returns_example = up_read_returns 1 contended-Reach refl
