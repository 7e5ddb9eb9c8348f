-- ===== src/Ring/Queue.antt =====
-- What a ring promises: a queue of at most `cap` entries, with bulk calls that move all or
-- nothing (`fixed`) or as many as they can (`variable`).
use skp.Common.{ℕ, ◌-◌, min, List, ◌++◌, length, take, drop, leb, if◌then◌else◌}
use skp.Ring.{Behavior, fixed, variable}

-- How many of `n` entries a call moves where `room` can be: a bulk call all of them or none, a burst call as many as
-- can be.
unfoldable pub movable : Behavior → ℕ → ℕ → ℕ
movable fixed n room = if leb n room then n else 0
movable variable n room = min n room

-- how many entries move, how much is left for the next call, the queue, and the caller's table
unfoldable pub enqueue : ℕ → List ℕ → List ℕ → ℕ → Behavior → ℕ × ℕ × List ℕ × List ℕ
enqueue cap q objs n behavior =
    let room = cap - length q in
    let m = movable behavior n room in (m, room - m, q ++ take m objs, objs)

unfoldable pub dequeue : List ℕ → List ℕ → ℕ → Behavior → ℕ × ℕ × List ℕ × List ℕ
dequeue q objs n behavior =
    let m = movable behavior n (length q) in (m, length q - m, drop m q, take m q ++ drop m objs)
