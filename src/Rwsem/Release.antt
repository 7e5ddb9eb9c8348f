-- ===== src/Rwsem/Release.antt =====
-- A writer gives the semaphore of src/utils/rwsem.c back, or becomes a reader: whom it wakes.
use mathlib.Core.Bool.{false≢true}
use skp.Common.{
  ℕ, zero, suc, ◌+◌, ◌≡◌, ◌⊎◌, inl, inr, refl, ap, ◌∙◌, Bool, true, false, List, [], ◌∷◌, ◌++◌,
  arith, length, length-append, if◌then◌else◌,
}
use skp.Common.Int.{ℤ, pos, negsuc, add_ℕ, increment}
use skp.Rwsem.{
  Sem, Waiter, Mode, read, write, up_write, downgrade_write, do_wake, wake_readers, count,
  wake_one_waiter,
}
use skp.Rwsem.System.{ids, contains, remove}
use skp.Rwsem.Invariant.{
  Agrees, FrontIsWoken, Inv, length-remove, length-ids, pos-add_ℕ, nil_of_length, reader_of, state,
}

-- What taking the readers off the front leaves.
pub wake_readers-front : (n : ℕ) (ws : List Waiter) → FrontIsWoken (pos (suc n)) (wake_readers ws).1
unfolding wake_readers
wake_readers-front n [] = tt
wake_readers-front n (w ∷ ws) = ground (arith, wake_readers-front n ws)

Mode-cases : (m : Mode) → (m ≡ read) ⊎ (m ≡ write)
Mode-cases read = inl refl
Mode-cases write = inr refl

do_wake_write :
    (a : ℤ) (w : Waiter) (ws : List Waiter) (wakewrite : Bool)
    → w.mode ≡ write
    → do_wake (record { activity = a; wait_list = w ∷ ws }) wakewrite ≡ (
      record { activity = a; wait_list = if wakewrite then wake_one_waiter w ∷ ws else w ∷ ws },
      [],
    )
unfolding do_wake
do_wake_write a w ws wakewrite m = ground arith

wake_readers_read :
    (w : Waiter) (ws : List Waiter)
    → w.mode ≡ read
    → wake_readers (w ∷ ws) ≡ (wake_one_waiter w ∷ (wake_readers ws).0, (wake_readers ws).1)
unfolding wake_readers
wake_readers_read w ws m = ground arith

-- the semaphore with readers taken off its queue, and those readers
abbrev readers_woken : ℕ → List Waiter × List Waiter → Sem × List Waiter
readers_woken k (woken, left) =
    (record { activity = add_ℕ (pos k) (count woken); wait_list = left }, woken)

do_wake_read :
    (k : ℕ) (w : Waiter) (ws : List Waiter) (wakewrite : Bool)
    → w.mode ≡ read
    → do_wake (record { activity = pos k; wait_list = w ∷ ws }) wakewrite ≡ (
      record {
        activity = pos (suc (k + count (wake_readers ws).0));
        wait_list = (wake_readers ws).1;
      },
      wake_one_waiter w ∷ (wake_readers ws).0,
    )
do_wake_read k w ws wakewrite m = opens ∙ ap (readers_woken k) (wake_readers_read w ws m) ∙ λ i. (
  record {
    activity = ap increment (pos-add_ℕ k (count (wake_readers ws).0)) i;
    wait_list = (wake_readers ws).1;
  },
  wake_one_waiter w ∷ (wake_readers ws).0,
)
  where
    opens :
        do_wake (record { activity = pos k; wait_list = w ∷ ws }) wakewrite
        ≡ readers_woken k (wake_readers (w ∷ ws))
    opens = unfold do_wake in ground arith

front_woken :
    (k : ℕ) (w : Waiter) (ws : List Waiter) (wakewrite : Bool)
    → w.mode ≡ write
    → (k ≡ 0 → wakewrite ≡ true)
    → FrontIsWoken (pos k) (if wakewrite then wake_one_waiter w ∷ ws else w ∷ ws)
front_woken zero w ws true m f = (m, omega arith)
front_woken zero w ws false m f = absurd (false≢true (f refl))
front_woken (suc k) w ws true m f = m
front_woken (suc k) w ws false m f = m

-- Waking from the front of the queue, with `k` readers that stay and no writer.
do_wake-Inv :
    (k : ℕ) (w : Waiter) (ws : List Waiter) (wakewrite : Bool) (rs : List ℕ)
    → length rs ≡ k
    → (k ≡ 0 → wakewrite ≡ true)
    → let (sem, woken) = do_wake (record { activity = pos k; wait_list = w ∷ ws }) wakewrite in
      Inv (record { sem = sem; readers = ids woken ++ rs; writers = [] })
do_wake-Inv k w ws wakewrite rs e f = elim (Mode-cases w.mode) [
  | inl m ↦ rw (do_wake_read k w ws wakewrite m) (record {
    agrees = (
      ap suc (length-append (ids (wake_readers ws).0) rs)
          ∙ omega (arith, length-ids (wake_readers ws).0),
      refl,
    );
    front = wake_readers-front (k + count (wake_readers ws).0) ws;
  })
  | inr m ↦
      rw (do_wake_write (pos k) w ws wakewrite m)
        (record { agrees = (e, refl); front = front_woken k w ws wakewrite m f })
]

-- the one writer is the thread that gives the lock back
sole_writer :
    (t : ℕ) (a : ℤ) (rs us : List ℕ)
    → Agrees a rs us
    → contains t us ≡ true
    → (rs ≡ []) × (remove t us ≡ [])
sole_writer t (pos n) rs us v h = absurd (reader_of t us v.1 h)
sole_writer t (negsuc zero) rs us v h =
    (v.0, nil_of_length (remove t us) (omega (arith, length-remove t us h, v.1)))
sole_writer t (negsuc (suc n)) rs us v h = absurd v

module _ (t : ℕ) where
  -- a writer gives the lock back
  pub write_unlock-Inv :
      (a : ℤ) (ws : List Waiter) (rs us : List ℕ)
      → Inv (state a ws rs us)
      → contains t us ≡ true
      → let (sem, woken) = up_write (record { activity = a; wait_list = ws }) in
        Inv (record { sem = sem; readers = ids woken ++ rs; writers = remove t us })
  unfolding up_write
  write_unlock-Inv a [] rs us v h =
      let (no_reader, no_writer) = sole_writer t a rs us v.agrees h in
      record { agrees = (ap length no_reader, no_writer); front = tt }
  write_unlock-Inv a (w ∷ ws) rs us v h =
      let (no_reader, no_writer) = sole_writer t a rs us v.agrees h in
      rw no_writer (do_wake-Inv 0 w ws true rs (ap length no_reader) (λ _. refl))

  -- a writer becomes a reader
  pub downgrade-Inv :
      (a : ℤ) (ws : List Waiter) (rs us : List ℕ)
      → Inv (state a ws rs us)
      → contains t us ≡ true
      → let (sem, woken) = downgrade_write (record { activity = a; wait_list = ws }) in
        Inv (record { sem = sem; readers = ids woken ++ (t ∷ rs); writers = remove t us })
  unfolding downgrade_write
  downgrade-Inv a [] rs us v h =
      let (no_reader, no_writer) = sole_writer t a rs us v.agrees h in
      record { agrees = (ap (λ l. suc (length l)) no_reader, no_writer); front = tt }
  downgrade-Inv a (w ∷ ws) rs us v h =
      let (no_reader, no_writer) = sole_writer t a rs us v.agrees h in
      rw no_writer (
        do_wake-Inv 1 w ws false (t ∷ rs) (ap (λ l. suc (length l)) no_reader)
          (λ z. absurd (omega (arith, z))))
