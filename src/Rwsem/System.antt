-- ===== src/Rwsem/System.antt =====
-- Threads that use one semaphore of src/utils/rwsem.c: each step is one section under the spin lock,
-- made by any thread. `readers` and `writers` are the threads to which the lock was granted and that
-- have not given it back; a reader that was woken holds the lock before it runs again.
use skp.Common.{
  ℕ, ◌≡◌, ◌==◌, ◌||◌, ◌&&◌, Bool, true, false, some, List, [], ◌∷◌, ◌++◌, if◌then◌else◌,
}
use skp.Rwsem.{
  Sem, Waiter, read, write, init_rwsem, down_read, down_read_trylock, down_write, write_again,
  down_write_trylock, up_read, up_write, downgrade_write,
}

pub record System : Type 0 where
  pub sem : Sem
  pub readers : List ℕ
  pub writers : List ℕ

abbrev pub ids : List Waiter → List ℕ
ids [] = []
ids (w ∷ ws) = w.id ∷ ids ws

abbrev pub contains : ℕ → List ℕ → Bool
contains t [] = false
contains t (u ∷ us) = u == t || contains t us

abbrev pub remove : ℕ → List ℕ → List ℕ
remove t [] = []
remove t (u ∷ us) = if u == t then us else u ∷ remove t us

-- whether a writer waits under this name
abbrev pub writer_waits : ℕ → List Waiter → Bool
writer_waits t [] = false
writer_waits t (w ∷ ws) =
    (w.id == t && (elim w.mode [ read ↦ false | write ↦ true ])) || writer_waits t ws

-- what a call that may be granted the lock leaves
abbrev pub granted_read : System → ℕ → Bool × Sem → System
granted_read s t (granted, sem) = record s {
  sem = sem;
  readers = if granted then t ∷ s.readers else s.readers;
}

abbrev pub granted_write : System → ℕ → Bool × Sem → System
granted_write s t (granted, sem) = record s {
  sem = sem;
  writers = if granted then t ∷ s.writers else s.writers;
}

pub data Step : System → System → Type 0 where
  read_lock : (s : System) (t : ℕ) → Step s (granted_read s t (down_read s.sem t))
  read_try : (s : System) (t : ℕ) → Step s (granted_read s t (down_read_trylock s.sem))
  write_lock : (s : System) (t : ℕ) → Step s (granted_write s t (down_write s.sem t))
  write_retry :
      (s : System) (t : ℕ)
      → writer_waits t s.sem.wait_list ≡ true
      → Step s (granted_write s t (write_again s.sem t))
  write_try : (s : System) (t : ℕ) → Step s (granted_write s t (down_write_trylock s.sem))
  read_unlock :
      (s : System) (t : ℕ) (sem : Sem)
      → contains t s.readers ≡ true
      → up_read s.sem ≡ some sem
      → Step s (record s { sem = sem; readers = remove t s.readers })
  write_unlock :
      (s : System) (t : ℕ)
      → contains t s.writers ≡ true
      → Step s (record {
        sem = (up_write s.sem).0;
        readers = ids (up_write s.sem).1 ++ s.readers;
        writers = remove t s.writers;
      })
  downgrade :
      (s : System) (t : ℕ)
      → contains t s.writers ≡ true
      → Step s (record {
        sem = (downgrade_write s.sem).0;
        readers = ids (downgrade_write s.sem).1 ++ (t ∷ s.readers);
        writers = remove t s.writers;
      })

abbrev pub initial : System
initial = record { sem = init_rwsem; readers = []; writers = [] }

pub data Reach : System → Type 0 where
  start : Reach initial
  later : {s t : System} → Reach s → Step s t → Reach t
