-- ===== src/Rwsem/Invariant.antt =====
-- The invariant of the semaphore of src/utils/rwsem.c, and that taking it and a reader's giving it
-- back keep the invariant.
use mathlib.Core.Path.{subst}
use mathlib.Core.Bool.{false≢true}
use skp.Common.{
  ℕ, zero, suc, ◌+◌, ◌<◌, ◌≡◌, ◌≢◌, refl, sym, ap, ◌∙◌, true, some, List, [], ◌∷◌, ◌++◌, arith,
  length,
}
use skp.Common.Int.{ℤ, pos, negsuc, add_ℕ, increment}
use skp.Rwsem.{
  Sem, Waiter, write, down_read, down_read_trylock, down_write, write_again, write_turn,
  down_write_trylock, up_read, wake_one_writer, count, reset_flags, wake_one_waiter,
}
use skp.Rwsem.System.{System, ids, contains, remove, granted_read, granted_write}

-- The counter is the number of readers, or -1 beside one writer.
abbrev pub Agrees : ℤ → List ℕ → List ℕ → Type 0
Agrees (pos n) readers writers = (length readers ≡ n) × (writers ≡ [])
Agrees (negsuc zero) readers writers = (readers ≡ []) × (length writers ≡ 1)
Agrees (negsuc (suc n)) readers writers = ⊥

-- Under readers no reader is first in the queue; and of a free lock the first is a writer that
-- has been woken.
abbrev pub FrontIsWoken : ℤ → List Waiter → Type 0
FrontIsWoken (pos zero) [] = Unit
FrontIsWoken (pos zero) (w ∷ ws) = (w.mode ≡ write) × (0 < w.woken)
FrontIsWoken (pos (suc n)) [] = Unit
FrontIsWoken (pos (suc n)) (w ∷ ws) = w.mode ≡ write
FrontIsWoken (negsuc n) ws = Unit

pub record Inv (s : System) : Type 0 where
  pub agrees : Agrees s.sem.activity s.readers s.writers
  pub front : FrontIsWoken s.sem.activity s.sem.wait_list

pub length-remove :
    (t : ℕ) (us : List ℕ) → contains t us ≡ true → length (remove t us) + 1 ≡ length us
length-remove t [] h = cc
length-remove t (u ∷ us) h = ground (arith, length-remove t us)

pub length-ids : (ws : List Waiter) → length (ids ws) ≡ count ws
length-ids [] = refl
length-ids (w ∷ ws) = ap suc (length-ids ws)

pub pos-add_ℕ : (n k : ℕ) → add_ℕ (pos n) k ≡ pos (n + k)
pos-add_ℕ n zero = ap pos (omega arith)
pos-add_ℕ n (suc k) = ap increment (pos-add_ℕ n k) ∙ ap pos (omega arith)

abbrev pub state : ℤ → List Waiter → List ℕ → List ℕ → System
state a ws rs us = record {
  sem = record { activity = a; wait_list = ws };
  readers = rs;
  writers = us;
}

pub nil_of_length : (us : List ℕ) → length us ≡ 0 → us ≡ []
nil_of_length [] h = refl
nil_of_length (u ∷ us) h = absurd (omega arith)

pub reader_of : (t : ℕ) (rs : List ℕ) → rs ≡ [] → contains t rs ≡ true → ⊥
reader_of t rs e h = false≢true (sym (ap (contains t) e) ∙ h)

front_under :
    (n : ℕ) (ws : List Waiter) → FrontIsWoken (pos (suc (suc n))) ws → FrontIsWoken (pos (suc n)) ws
front_under n [] f = tt
front_under n (w ∷ ws) f = f

becomes :
    {x y : Sem} {rs us : List ℕ}
    → some x ≡ some y
    → Inv (record { sem = x; readers = rs; writers = us })
    → Inv (record { sem = y; readers = rs; writers = us })
becomes {rs} {us} e v = subst (λ z. Inv (record { sem = z; readers = rs; writers = us })) (cc e) v

-- the last reader that leaves wakes the writer at the front
pub wakes :
    (w : Waiter) (ws : List Waiter)
    → w.mode ≡ write
    → up_read (record { activity = pos 1; wait_list = w ∷ ws })
      ≡ some (record { activity = pos 0; wait_list = wake_one_waiter w ∷ ws })
unfolding up_read wake_one_writer
wakes w ws m = ground arith

-- One lemma for each call, by the sign of the counter and whether somebody waits.
module _ (rs us : List ℕ) (t : ℕ) where
  pub read_lock-Inv :
      (a : ℤ) (ws : List Waiter)
      → Inv (state a ws rs us)
      → Inv (
          granted_read (state a ws rs us) t (down_read (record { activity = a; wait_list = ws }) t))
  unfolding down_read
  read_lock-Inv (pos zero) [] v = ground arith
  read_lock-Inv (pos zero) (w ∷ ws) v = ground arith
  read_lock-Inv (pos (suc n)) [] v = ground arith
  read_lock-Inv (pos (suc n)) (w ∷ ws) v = ground arith
  read_lock-Inv (negsuc zero) ws v = ground arith
  read_lock-Inv (negsuc (suc n)) ws v = absurd v.agrees

  pub read_try-Inv :
      (a : ℤ) (ws : List Waiter)
      → Inv (state a ws rs us)
      → Inv (
          granted_read
            (state a ws rs us)
            t
            (down_read_trylock (record { activity = a; wait_list = ws })))
  unfolding down_read_trylock
  read_try-Inv (pos zero) [] v = ground arith
  read_try-Inv (pos (suc n)) [] v = ground arith
  read_try-Inv (pos n) (w ∷ ws) v = v
  read_try-Inv (negsuc n) ws v = v

  write_turn-Inv :
      (a : ℤ) (ws : List Waiter)
      → Agrees a rs us
      → (a ≢ pos 0 → FrontIsWoken a ws)
      → Inv (
          granted_write
            (state a ws rs us)
            t
            (write_turn (record { activity = a; wait_list = ws }) t))
  unfolding write_turn
  write_turn-Inv (pos zero) ws v f = record {
    agrees = (nil_of_length rs v.0, rw v.1 refl);
    front = tt;
  }
  write_turn-Inv (pos (suc n)) ws v f = record { agrees = v; front = f (λ e. cc) }
  write_turn-Inv (negsuc n) ws v f = record { agrees = v; front = tt }

  front-append :
      (a : ℤ) (ws : List Waiter) (w : Waiter)
      → w.mode ≡ write
      → FrontIsWoken a ws
      → a ≢ pos 0
      → FrontIsWoken a (ws ++ (w ∷ []))
  front-append (pos zero) ws w m f ne = absurd (ne refl)
  front-append (pos (suc n)) [] w m f ne = m
  front-append (pos (suc n)) (x ∷ ws) w m f ne = f
  front-append (negsuc n) ws w m f ne = tt

  front-reset_flags :
      (a : ℤ) (ws : List Waiter) → FrontIsWoken a ws → a ≢ pos 0 → FrontIsWoken a (reset_flags t ws)
  front-reset_flags (pos zero) ws f ne = absurd (ne refl)
  front-reset_flags (pos (suc n)) [] f ne = tt
  front-reset_flags (pos (suc n)) (x ∷ ws) f ne = ground arith
  front-reset_flags (negsuc n) ws f ne = tt

  pub write_lock-Inv :
      (a : ℤ) (ws : List Waiter)
      → Inv (state a ws rs us)
      → Inv (
          granted_write
            (state a ws rs us)
            t
            (down_write (record { activity = a; wait_list = ws }) t))
  unfolding down_write
  write_lock-Inv a ws v = write_turn-Inv a _ v.agrees (front-append a ws _ refl v.front)

  pub write_retry-Inv :
      (a : ℤ) (ws : List Waiter)
      → Inv (state a ws rs us)
      → Inv (
          granted_write
            (state a ws rs us)
            t
            (write_again (record { activity = a; wait_list = ws }) t))
  unfolding write_again
  write_retry-Inv a ws v = write_turn-Inv a _ v.agrees (front-reset_flags a ws v.front)

  pub write_try-Inv :
      (a : ℤ) (ws : List Waiter)
      → Inv (state a ws rs us)
      → Inv (
          granted_write
            (state a ws rs us)
            t
            (down_write_trylock (record { activity = a; wait_list = ws })))
  unfolding down_write_trylock
  write_try-Inv (pos zero) ws v = record {
    agrees = (nil_of_length rs v.agrees.0, rw v.agrees.1 refl);
    front = tt;
  }
  write_try-Inv (pos (suc n)) ws v = v
  write_try-Inv (negsuc n) ws v = v

  -- an unlock by a reader: the counter is positive, and nobody or a writer comes next
  pub read_unlock-Inv :
      (a : ℤ) (ws : List Waiter) (sem : Sem)
      → Inv (state a ws rs us)
      → contains t rs ≡ true
      → up_read (record { activity = a; wait_list = ws }) ≡ some sem
      → Inv (record { sem = sem; readers = remove t rs; writers = us })
  unfolding up_read wake_one_writer
  read_unlock-Inv (pos zero) ws sem v h e = absurd (omega (arith, length-remove t rs h, v.agrees.0))
  read_unlock-Inv (pos (suc zero)) [] sem v h e = becomes e (record {
    agrees = (omega (arith, length-remove t rs h, v.agrees.0), v.agrees.1);
    front = tt;
  })
  read_unlock-Inv (pos (suc zero)) (w ∷ ws) sem v h e =
      becomes (sym (wakes w ws v.front) ∙ e) (record {
        agrees = (omega (arith, length-remove t rs h, v.agrees.0), v.agrees.1);
        front = (v.front, omega arith);
      })
  read_unlock-Inv (pos (suc (suc n))) ws sem v h e = becomes e (record {
    agrees = (omega (arith, length-remove t rs h, v.agrees.0), v.agrees.1);
    front = front_under n ws v.front;
  })
  read_unlock-Inv (negsuc zero) ws sem v h e = absurd (reader_of t rs v.agrees.0 h)
  read_unlock-Inv (negsuc (suc n)) ws sem v h e = absurd v.agrees
