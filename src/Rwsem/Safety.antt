-- ===== src/Rwsem/Safety.antt =====
-- What holds in every state that threads can bring a semaphore of src/utils/rwsem.c to.
use skp.Common.{
  ℕ, zero, suc, ◌≤◌, ◌<◌, ◌≡◌, ◌⊎◌, inl, inr, refl, ap, true, some, List, [], ◌∷◌, arith, length,
}
use skp.Common.Int.{ℤ, pos, negsuc, is_zero}
use skp.Rwsem.{Sem, Waiter, write, init_rwsem, write_again, write_turn, up_read, wake_one_writer}
use skp.Rwsem.System.{
  System, Step, Reach, read_lock, read_try, write_lock, write_retry, write_try, read_unlock,
  write_unlock, downgrade, start, later, contains,
}
use skp.Rwsem.Invariant.{
  Agrees, FrontIsWoken, Inv, length-remove, reader_of, wakes, read_lock-Inv, read_try-Inv,
  write_lock-Inv, write_retry-Inv, write_try-Inv, read_unlock-Inv,
}
use skp.Rwsem.Release.{write_unlock-Inv, downgrade-Inv}

-- Every step keeps the invariant.
Step-Inv : {s t : System} → Step s t → Inv s → Inv t
Step-Inv (read_lock s t) v = read_lock-Inv s.readers s.writers t s.sem.activity s.sem.wait_list v
Step-Inv (read_try s t) v = read_try-Inv s.readers s.writers t s.sem.activity s.sem.wait_list v
Step-Inv (write_lock s t) v = write_lock-Inv s.readers s.writers t s.sem.activity s.sem.wait_list v
Step-Inv (write_retry s t h) v =
    write_retry-Inv s.readers s.writers t s.sem.activity s.sem.wait_list v
Step-Inv (write_try s t) v = write_try-Inv s.readers s.writers t s.sem.activity s.sem.wait_list v
Step-Inv (read_unlock s t sem h e) v =
    read_unlock-Inv s.readers s.writers t s.sem.activity s.sem.wait_list sem v h e
Step-Inv (write_unlock s t h) v =
    write_unlock-Inv t s.sem.activity s.sem.wait_list s.readers s.writers v h
Step-Inv (downgrade s t h) v =
    downgrade-Inv t s.sem.activity s.sem.wait_list s.readers s.writers v h

Reach-Inv : {s : System} → Reach s → Inv s
unfolding init_rwsem
Reach-Inv start = record { agrees = (refl, refl); front = tt }
Reach-Inv (later r st) = Step-Inv st (Reach-Inv r)

exclusive :
    (a : ℤ) (rs us : List ℕ)
    → Agrees a rs us
    → (length us ≤ 1) × ((length rs ≡ 0) ⊎ (length us ≡ 0))
exclusive (pos n) rs us v = (omega (arith, ap length v.1), inr (ap length v.1))
exclusive (negsuc zero) rs us v = (omega (arith, v.1), inl (ap length v.0))
exclusive (negsuc (suc n)) rs us v = absurd v

-- In every reachable state at most one thread holds the semaphore for writing, and no thread holds
-- it for reading beside a writer.
pub mutual_exclusion :
    {s : System}
    → Reach s
    → (length s.writers ≤ 1) × ((length s.readers ≡ 0) ⊎ (length s.writers ≡ 0))
mutual_exclusion {s} r = exclusive s.sem.activity s.readers s.writers (Reach-Inv r).agrees

woken_front :
    (a : ℤ) (w : Waiter) (ws : List Waiter)
    → FrontIsWoken a (w ∷ ws)
    → is_zero a ≡ true
    → (w.mode ≡ write) × (0 < w.woken)
woken_front (pos zero) w ws f h = f
woken_front (pos (suc n)) w ws f h = cc
woken_front (negsuc n) w ws f h = cc

takes : (sem : Sem) (id : ℕ) → is_zero sem.activity ≡ true → (write_again sem id).0 ≡ true
unfolding write_again write_turn
takes sem id h = rw h

-- No wake-up is lost: in a reachable state in which nobody holds the semaphore and somebody waits,
-- the first in the queue is a writer that has been woken, and its next turn takes the semaphore.
pub no_lost_wakeup :
    {s : System} {w : Waiter} {ws : List Waiter}
    → Reach s
    → is_zero s.sem.activity ≡ true
    → s.sem.wait_list ≡ w ∷ ws
    → (w.mode ≡ write) × (0 < w.woken) × ((write_again s.sem w.id).0 ≡ true)
no_lost_wakeup {s} {w} {ws} r free e =
    let (is_writer, woken) = woken_front s.sem.activity w ws (rw e at ((Reach-Inv r).front)) free in
    (is_writer, woken, takes s.sem w.id free)

unlocks :
    (a : ℤ) (ws : List Waiter) (rs us : List ℕ) (t : ℕ)
    → Agrees a rs us
    → FrontIsWoken a ws
    → contains t rs ≡ true
    → (sem : Sem) × (up_read (record { activity = a; wait_list = ws }) ≡ some sem)
unfolding up_read wake_one_writer
unlocks (pos zero) ws rs us t v f h = absurd (omega (arith, length-remove t rs h, v.0))
unlocks (pos (suc zero)) [] rs us t v f h = (_, refl)
unlocks (pos (suc zero)) (w ∷ ws) rs us t v f h = (_, wakes w ws f)
unlocks (pos (suc (suc n))) ws rs us t v f h = (_, refl)
unlocks (negsuc zero) ws rs us t v f h = absurd (reader_of t rs v.0 h)
unlocks (negsuc (suc n)) ws rs us t v f h = absurd v

-- In a reachable state a thread that holds the semaphore for reading can give it back: the BUG_ON
-- of `__rwsem_wake_one_writer` does not fire, since the first in the queue is no reader.
pub up_read_returns :
    {s : System} (t : ℕ)
    → Reach s
    → contains t s.readers ≡ true
    → (sem : Sem) × (up_read s.sem ≡ some sem)
up_read_returns {s} t r h =
    unlocks s.sem.activity s.sem.wait_list s.readers s.writers t (Reach-Inv r).agrees
      (Reach-Inv r).front h
