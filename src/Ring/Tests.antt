-- ===== src/Ring/Tests.antt =====
-- Runs of the ring of src/adt/ring.c on small inputs, and its theorems at them.
use skp.Common.{◌-◌, ◌^◌, ◌≡◌, refl, List, [], ◌∷◌, arith, some, true, false}
use skp.Ring.{Ringb, Outcome, ok, einval, fixed, variable, init, do_enqueue, do_dequeue}
use skp.Bitops.{roundup_pow_of_two, flsl, leading_zeros, is_power_of_2}
use skp.Ring.Queue
use skp.Ring.Valid.{IsValid, contents, view}
use skp.Ring.Init.{init-IsValid}
use skp.Ring.Enqueue.{do_enqueue_refines}
use skp.Ring.Dequeue.{do_dequeue_refines}
use skp.Ring.Client.{
  Call, enqueue, dequeue, several, created, run, run_queue, expected, run_refines,
}

-- two entries, 7 and 8, with the positions about to wrap
abbrev wrapping : Ringb
wrapping = record {
  flags = 0;
  size = 4;
  mask = 3;
  capacity = 3;
  prod = record { head = 1; tail = 1; single = false };
  cons = record { head = 2 ^ 32 - 1; tail = 2 ^ 32 - 1; single = true };
  ring = 8 ∷ 0 ∷ 0 ∷ 7 ∷ [];
}

abbrev wrapping-IsValid : IsValid wrapping
wrapping-IsValid = record {
  bits = 2;
  bits_le = omega arith;
  sized = refl;
  masked = refl;
  capacity_lt = omega arith;
  stored = refl;
  prod_head = refl;
  cons_head = refl;
  prod_lt = omega arith;
  cons_lt = omega arith;
  used_le = omega arith;
}

contents-wrapping : contents wrapping ≡ 7 ∷ 8 ∷ []
contents-wrapping = refl

-- a header not yet set up, and eight slots
abbrev blank : Ringb
blank = record wrapping { ring = 0 ∷ 0 ∷ 0 ∷ 0 ∷ 0 ∷ 0 ∷ 0 ∷ 0 ∷ [] }

abbrev exact_five : Ringb
exact_five = record {
  flags = 4;
  size = 8;
  mask = 7;
  capacity = 5;
  prod = record { head = 0; tail = 0; single = false };
  cons = record { head = 0; tail = 0; single = false };
  ring = 0 ∷ 0 ∷ 0 ∷ 0 ∷ 0 ∷ 0 ∷ 0 ∷ 0 ∷ [];
}

init_exact : init blank 5 4 ≡ (ok, exact_five)
unfolding init roundup_pow_of_two flsl leading_zeros
init_exact = refl

init_odd : (init blank 5 0).0 ≡ einval
unfolding init is_power_of_2
init_odd = refl

abbrev calls : List Call
calls =
    enqueue created fixed (1 ∷ 2 ∷ []) 2
    ∷ enqueue several variable (1 ∷ 2 ∷ []) 2
    ∷ dequeue created fixed (0 ∷ 0 ∷ 0 ∷ 0 ∷ []) 3
    ∷ []

-- the bulk call does not fit, the burst call puts one entry in, and three come out
run_queue-calls :
    run_queue 3 (7 ∷ 8 ∷ []) calls
    ≡ ((0, 1, 1 ∷ 2 ∷ []) ∷ (1, 0, 1 ∷ 2 ∷ []) ∷ (3, 0, 7 ∷ 8 ∷ 1 ∷ 0 ∷ []) ∷ [], [])
unfolding run_queue expected Queue.enqueue Queue.dequeue Queue.movable
run_queue-calls = refl

init-IsValid_example : IsValid exact_five × (contents exact_five ≡ []) × (exact_five.capacity ≡ 5)
init-IsValid_example = init-IsValid blank exact_five 5 4 (omega arith) init_exact refl

do_enqueue_refines_example :
    (out : Outcome) × (do_enqueue wrapping (1 ∷ 2 ∷ []) 2 variable false ≡ some out)
    × IsValid out.ring
    × (out.ring.capacity ≡ 3)
    × (view out ≡ Queue.enqueue 3 (7 ∷ 8 ∷ []) (1 ∷ 2 ∷ []) 2 variable)
do_enqueue_refines_example =
    do_enqueue_refines (1 ∷ 2 ∷ []) 2 variable false wrapping-IsValid (omega arith)

do_dequeue_refines_example :
    (out : Outcome) × (do_dequeue wrapping (0 ∷ 0 ∷ []) 2 fixed true ≡ some out)
    × IsValid out.ring
    × (out.ring.capacity ≡ 3)
    × (view out ≡ Queue.dequeue (7 ∷ 8 ∷ []) (0 ∷ 0 ∷ []) 2 fixed)
do_dequeue_refines_example =
    do_dequeue_refines (0 ∷ 0 ∷ []) 2 fixed true wrapping-IsValid (omega arith)

run_refines_example :
    (last : Ringb) × (run wrapping calls ≡ some ((run_queue 3 (7 ∷ 8 ∷ []) calls).0, last))
    × IsValid last
    × (contents last ≡ (run_queue 3 (7 ∷ 8 ∷ []) calls).1)
run_refines_example = run_refines calls wrapping-IsValid (omega arith)
