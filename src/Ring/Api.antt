-- ===== src/Ring/Api.antt =====
-- The inline calls of include/skp/adt/ring.h: bulk calls move all or nothing, burst calls as many
-- as they can; mp/mc and sp/sc say how many threads there are, and the plain names ask the ring.
use skp.Common.{ℕ, List, [], ◌∷◌, true, false, Option}
use skp.Ring.{Ringb, Outcome, fixed, variable, do_enqueue, do_dequeue}

unfoldable pub mp_enqueue_bulk : Ringb → List ℕ → ℕ → Option Outcome
mp_enqueue_bulk r obj_table n = do_enqueue r obj_table n fixed false

unfoldable pub sp_enqueue_bulk : Ringb → List ℕ → ℕ → Option Outcome
sp_enqueue_bulk r obj_table n = do_enqueue r obj_table n fixed true

unfoldable pub enqueue_bulk : Ringb → List ℕ → ℕ → Option Outcome
enqueue_bulk r obj_table n = do_enqueue r obj_table n fixed r.prod.single

unfoldable pub mp_enqueue : Ringb → ℕ → Option Outcome
mp_enqueue r obj = mp_enqueue_bulk r (obj ∷ []) 1

unfoldable pub sp_enqueue : Ringb → ℕ → Option Outcome
sp_enqueue r obj = sp_enqueue_bulk r (obj ∷ []) 1

unfoldable pub enqueue : Ringb → ℕ → Option Outcome
unfolding enqueue_bulk
enqueue r obj = enqueue_bulk r (obj ∷ []) 1

unfoldable pub mc_dequeue_bulk : Ringb → List ℕ → ℕ → Option Outcome
mc_dequeue_bulk r obj_table n = do_dequeue r obj_table n fixed false

unfoldable pub sc_dequeue_bulk : Ringb → List ℕ → ℕ → Option Outcome
sc_dequeue_bulk r obj_table n = do_dequeue r obj_table n fixed true

unfoldable pub dequeue_bulk : Ringb → List ℕ → ℕ → Option Outcome
dequeue_bulk r obj_table n = do_dequeue r obj_table n fixed r.cons.single

-- The place that `obj_p` points to is a table of one entry.
unfoldable pub mc_dequeue : Ringb → ℕ → Option Outcome
mc_dequeue r obj = mc_dequeue_bulk r (obj ∷ []) 1

unfoldable pub sc_dequeue : Ringb → ℕ → Option Outcome
sc_dequeue r obj = sc_dequeue_bulk r (obj ∷ []) 1

unfoldable pub dequeue : Ringb → ℕ → Option Outcome
unfolding dequeue_bulk
dequeue r obj = dequeue_bulk r (obj ∷ []) 1

unfoldable pub mp_enqueue_burst : Ringb → List ℕ → ℕ → Option Outcome
mp_enqueue_burst r obj_table n = do_enqueue r obj_table n variable false

unfoldable pub sp_enqueue_burst : Ringb → List ℕ → ℕ → Option Outcome
sp_enqueue_burst r obj_table n = do_enqueue r obj_table n variable true

unfoldable pub enqueue_burst : Ringb → List ℕ → ℕ → Option Outcome
enqueue_burst r obj_table n = do_enqueue r obj_table n variable r.prod.single

unfoldable pub mc_dequeue_burst : Ringb → List ℕ → ℕ → Option Outcome
mc_dequeue_burst r obj_table n = do_dequeue r obj_table n variable false

unfoldable pub sc_dequeue_burst : Ringb → List ℕ → ℕ → Option Outcome
sc_dequeue_burst r obj_table n = do_dequeue r obj_table n variable true

unfoldable pub dequeue_burst : Ringb → List ℕ → ℕ → Option Outcome
dequeue_burst r obj_table n = do_dequeue r obj_table n variable r.cons.single
