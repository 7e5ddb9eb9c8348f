-- ===== src/Ring/Client.antt =====
-- Any sequence of calls of include/skp/adt/ring.h, made one after another, cannot tell a valid ring
-- from the bounded queue of its contents.
use skp.Common.{ℕ, ◌≤◌, ◌≡◌, refl, ap, ◌∙◌, List, [], ◌∷◌, length, Option, some, none, true, false}
use skp.Ring.{Ringb, Behavior, fixed, variable, Outcome}
use skp.Ring.Api.{
  mp_enqueue_bulk, sp_enqueue_bulk, enqueue_bulk, mp_enqueue_burst, sp_enqueue_burst, enqueue_burst,
  mc_dequeue_bulk, sc_dequeue_bulk, dequeue_bulk, mc_dequeue_burst, sc_dequeue_burst, dequeue_burst,
}
use skp.Ring.Queue
use skp.Ring.Valid.{IsValid, contents, view}
use skp.Ring.Enqueue.{do_enqueue_refines}
use skp.Ring.Dequeue.{do_dequeue_refines}

-- single, several, or as the ring was created
pub data Threads : Type 0 where
  single several created : Threads

-- A call names the table and the number of entries.
pub data Call : Type 0 where
  enqueue : Threads → Behavior → List ℕ → ℕ → Call
  dequeue : Threads → Behavior → List ℕ → ℕ → Call

pub perform : Ringb → Call → Option Outcome
perform r (enqueue single fixed objs n) = sp_enqueue_bulk r objs n
perform r (enqueue several fixed objs n) = mp_enqueue_bulk r objs n
perform r (enqueue created fixed objs n) = enqueue_bulk r objs n
perform r (enqueue single variable objs n) = sp_enqueue_burst r objs n
perform r (enqueue several variable objs n) = mp_enqueue_burst r objs n
perform r (enqueue created variable objs n) = enqueue_burst r objs n
perform r (dequeue single fixed objs n) = sc_dequeue_bulk r objs n
perform r (dequeue several fixed objs n) = mc_dequeue_bulk r objs n
perform r (dequeue created fixed objs n) = dequeue_bulk r objs n
perform r (dequeue single variable objs n) = sc_dequeue_burst r objs n
perform r (dequeue several variable objs n) = mc_dequeue_burst r objs n
perform r (dequeue created variable objs n) = dequeue_burst r objs n

-- the table holds the entries that the call names
abbrev pub Fits : Call → Type 0
Fits (enqueue _ _ objs n) = n ≤ length objs
Fits (dequeue _ _ objs n) = n ≤ length objs

abbrev pub AllFit : List Call → Type 0
AllFit [] = Unit
AllFit (c ∷ cs) = Fits c × AllFit cs

-- what a call says of the queue: the number moved, what is left, the queue, the table
unfoldable pub expected : ℕ → List ℕ → Call → ℕ × ℕ × List ℕ × List ℕ
expected cap q (enqueue _ b objs n) = Queue.enqueue cap q objs n b
expected cap q (dequeue _ b objs n) = Queue.dequeue q objs n b

-- what the caller sees of each call: the number moved, what is left, and the table
abbrev pub Reply : Type 0
Reply = ℕ × ℕ × List ℕ

unfoldable pub run : Ringb → List Call → Option (List Reply × Ringb)
run r [] = some ([], r)
run r (c ∷ cs) = elim (perform r c) [
  | none ↦ none
  | some out ↦ elim (run out.ring cs) [
    | none ↦ none
    | some (replies, last) ↦ some ((out.moved, out.left, out.table) ∷ replies, last)
  ]
]

unfoldable pub run_queue : ℕ → List ℕ → List Call → List Reply × List ℕ
run_queue cap q [] = ([], q)
run_queue cap q (c ∷ cs) =
    let (moved, left, q', table) = expected cap q c in
    let (replies, last) = run_queue cap q' cs in ((moved, left, table) ∷ replies, last)

-- One call of whichever kind.
perform_refines :
    {r : Ringb} (c : Call)
    → IsValid r
    → Fits c
    → (out : Outcome) × (perform r c ≡ some out)
      × IsValid out.ring
      × (out.ring.capacity ≡ r.capacity)
      × (view out ≡ expected r.capacity (contents r) c)
unfolding perform expected mp_enqueue_bulk sp_enqueue_bulk enqueue_bulk mp_enqueue_burst
    sp_enqueue_burst enqueue_burst mc_dequeue_bulk sc_dequeue_bulk dequeue_bulk mc_dequeue_burst
    sc_dequeue_burst dequeue_burst
perform_refines (enqueue single fixed objs n) v h = do_enqueue_refines objs n fixed true v h
perform_refines (enqueue several fixed objs n) v h = do_enqueue_refines objs n fixed false v h
perform_refines {r} (enqueue created fixed objs n) v h =
    do_enqueue_refines objs n fixed r.prod.single v h
perform_refines (enqueue single variable objs n) v h = do_enqueue_refines objs n variable true v h
perform_refines (enqueue several variable objs n) v h = do_enqueue_refines objs n variable false v h
perform_refines {r} (enqueue created variable objs n) v h =
    do_enqueue_refines objs n variable r.prod.single v h
perform_refines (dequeue single fixed objs n) v h = do_dequeue_refines objs n fixed true v h
perform_refines (dequeue several fixed objs n) v h = do_dequeue_refines objs n fixed false v h
perform_refines {r} (dequeue created fixed objs n) v h =
    do_dequeue_refines objs n fixed r.cons.single v h
perform_refines (dequeue single variable objs n) v h = do_dequeue_refines objs n variable true v h
perform_refines (dequeue several variable objs n) v h = do_dequeue_refines objs n variable false v h
perform_refines {r} (dequeue created variable objs n) v h =
    do_dequeue_refines objs n variable r.cons.single v h

run-cons :
    (r : Ringb) (c : Call) (cs : List Call) (out : Outcome) (replies : List Reply) (last : Ringb)
    → perform r c ≡ some out
    → run out.ring cs ≡ some (replies, last)
    → run r (c ∷ cs) ≡ some ((out.moved, out.left, out.table) ∷ replies, last)
unfolding run
run-cons r c cs out replies last e f = rw (e, run) (rw (f, run))

-- No sequence of calls, each with a table that is long enough, tells a valid ring from the bounded
-- queue of its contents: every call returns, with the queue's replies, and at the end the ring is
-- valid and holds what the queue holds.
pub run_refines :
    (cs : List Call) {r : Ringb}
    → IsValid r
    → AllFit cs
    → (last : Ringb) × (run r cs ≡ some ((run_queue r.capacity (contents r) cs).0, last))
      × IsValid last
      × (contents last ≡ (run_queue r.capacity (contents r) cs).1)
unfolding run run_queue
run_refines [] {r} v h = (r, refl, v, refl)
run_refines (c ∷ cs) {r} v h =
    let (out, runs, valid, same, sees) = perform_refines c v h.0 in
    let (last, rest, valid_last, holds) = run_refines cs valid h.1 in
    let rest' : run out.ring cs ≡ some ((run_queue r.capacity (contents out.ring) cs).0, last) =
      rest ∙ ap (λ k. some ((run_queue k (contents out.ring) cs).0, last)) same in
    (
      last,
      run-cons r c cs out _ last runs rest'
          ∙ (ap (λ w. some ((w.0, w.1, w.3) ∷ (run_queue r.capacity w.2 cs).0, last)) sees),
      valid_last,
      holds
          ∙ ap (λ k. (run_queue k (contents out.ring) cs).1) same
          ∙ ap (λ w. (run_queue r.capacity w.2 cs).1) sees,
    )
