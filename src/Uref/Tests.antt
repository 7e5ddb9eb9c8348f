-- ===== src/Uref/Tests.antt =====
-- Two threads and a count of include/skp/utils/uref.h.
use skp.Common.{◌≡◌, ◌<◌, ◌==◌, inl, refl, false, some, [], ◌∷◌, arith, if◌then◌else◌}
use skp.Uref.{uref_get, uref_put, uref_put_lock, uref_init, add_not_zero}
use skp.Uref.System.{
  System, Step, get, put, put_lock, gave_back, initial, Reachable, start, next, release_once,
  stays_released,
}

-- a second reference is taken, and both are given back
abbrev shared : System
shared = record initial { count = uref_get uref_init; holders = 2 }

abbrev half : System
half = gave_back shared (uref_put shared.count)

abbrev gone : System
gone = gave_back half (uref_put_lock 1 half.count)

half-Reachable : Reachable half
half-Reachable =
    next (next start (get initial (omega arith) (omega arith))) (put shared (omega arith))

gone-Reachable : Reachable gone
gone-Reachable = next half-Reachable (put_lock half 1 (omega arith) (inl refl))

release_once_example :
    (gone.count ≡ gone.holders) × (gone.released ≡ (if gone.holders == 0 then 1 else 0))
release_once_example = release_once gone gone-Reachable

gone-released : 0 < gone.released
unfolding uref_get uref_init uref_put uref_put_lock
gone-released = omega arith

stays_released_example : (¬ Step gone gone) × (add_not_zero 1 gone.count (0 ∷ []) ≡ some (false, 0))
stays_released_example = stays_released gone gone 0 [] gone-Reachable gone-released
