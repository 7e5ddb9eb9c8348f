-- ===== src/Ring/Enqueue.antt =====
-- `__ringb_do_enqueue` of src/adt/ring.c on a valid ring, against the bounded queue.
use skp.Common.{
  ℕ, zero, suc, ◌+◌, ◌-◌, ◌^◌, ◌≤◌, ◌<◌, ◌≡◌, refl, sym, ap, ◌∙◌, List, ◌++◌, arith, length, take,
  Bool, Bool-cases, inl, inr, true, false, some, append-nil, tuple_path, ◌==◌, if◌then◌else◌,
}
use skp.Common.Word.{add32, sub32, u32_mod}
use skp.Ring.{Ringb, Behavior, allowed, Outcome, do_enqueue}
use skp.Ring.Copy.{enqueue_ptrs}
use skp.Ring.Copy.Runs.{span}
use skp.Ring.Copy.Ends.{enqueue_ptrs-put}
use skp.Ring.Window.{window, length-put}
use skp.Ring.Queue
use skp.Ring.Valid.{
  IsValid, contents, view, length-contents, pow_le_31, suc-ne-zero, allowed-le, allowed-movable,
}
use skp.Ring.Positions.{used_put, window-enqueue_ptrs}

-- the ring after `m` entries went in, both at the head and at the tail
abbrev enqueued : Ringb → List ℕ → ℕ → Ringb
enqueued r objs m = record r {
  prod = record r.prod { head = add32 r.prod.head m; tail = add32 r.prod.head m };
  ring = enqueue_ptrs r.size r.mask r.ring r.prod.head objs m;
}

abbrev room_of : Ringb → ℕ
room_of r = sub32 r.capacity (sub32 r.prod.head r.cons.tail)

-- what the call comes to when no other thread is at work
abbrev enqueue_outcome : Ringb → List ℕ → ℕ → Outcome
enqueue_outcome r objs m =
    if m == 0
    then record { moved = 0; left = sub32 (room_of r) 0; ring = r; table = objs }
    else record { moved = m; left = sub32 (room_of r) m; ring = enqueued r objs m; table = objs }

capacity-enqueue_outcome :
    (r : Ringb) (objs : List ℕ) (m : ℕ) → (enqueue_outcome r objs m).ring.capacity ≡ r.capacity
capacity-enqueue_outcome r objs m = ground arith

do_enqueue-run :
    (r : Ringb) (objs : List ℕ) (n : ℕ) (b : Behavior) (is_sp : Bool)
    → r.prod.head ≡ r.prod.tail
    → do_enqueue r objs n b is_sp ≡ some (enqueue_outcome r objs (allowed b n (room_of r)))
unfolding do_enqueue
do_enqueue-run r objs n b true quiet = ground arith
do_enqueue-run r objs n b false quiet = ground arith

-- the same over the fields alone
contents_after :
    (k size mask pt ph ct m : ℕ) (ring objs : List ℕ)
    → k ≤ 31
    → size ≡ 2 ^ k
    → mask ≡ 2 ^ k - 1
    → ph ≡ pt
    → length ring ≡ 2 ^ k
    → pt < u32_mod
    → ct < u32_mod
    → sub32 pt ct + m < 2 ^ k
    → m ≤ length objs
    → window size (enqueue_ptrs size mask ring ph objs m) ct (sub32 (add32 ph m) ct)
      ≡ window size ring ct (sub32 pt ct) ++ take m objs
contents_after k size mask pt ph ct m ring objs k_le es em ep stored pt_lt ct_lt room fits =
    rw (es, em, ep)
      (ap (window (2 ^ k) (enqueue_ptrs (2 ^ k) (2 ^ k - 1) ring pt objs m) ct)
          (used_put pt ct m pt_lt ct_lt (omega (arith, pow_le_31 k k_le)))
        ∙ window-enqueue_ptrs k pt ct ring objs k_le stored pt_lt ct_lt m room fits)

length_after :
    (k size mask p m : ℕ) (ring objs : List ℕ)
    → k ≤ 31
    → size ≡ 2 ^ k
    → mask ≡ 2 ^ k - 1
    → m < 2 ^ k
    → length (enqueue_ptrs size mask ring p objs m) ≡ length ring
length_after k size mask p m ring objs k_le es em small =
    rw (es, em, enqueue_ptrs-put k p m k_le small ring objs)
      (length-put (2 ^ k) ring p (span objs 0 m))

module _ {r : Ringb} (v : IsValid r) where
  open v use {
    bits, bits_le, sized, masked, capacity_lt, stored, prod_head, cons_head, prod_lt, cons_lt,
    used_le,
  }

  room : room_of r ≡ r.capacity - length (contents r)
  room = omega (arith, length-contents r, prod_head, capacity_lt, pow_le_31 bits bits_le)

  enqueued-IsValid :
      (objs : List ℕ) (m : ℕ) → m ≤ r.capacity - length (contents r) → IsValid (enqueued r objs m)
  enqueued-IsValid objs m fits = record {
    bits = bits;
    bits_le = bits_le;
    sized = sized;
    masked = masked;
    capacity_lt = capacity_lt;
    stored =
        length_after bits r.size r.mask r.prod.head m r.ring objs bits_le sized masked
          (omega (arith, capacity_lt))
        ∙ stored;
    prod_head = refl;
    cons_head = cons_head;
    prod_lt = omega arith;
    cons_lt = cons_lt;
    used_le =
        omega
          (arith, length-contents r, fits, prod_head, used_le, capacity_lt, pow_le_31 bits bits_le);
  }

  contents-enqueued :
      (objs : List ℕ) (m : ℕ)
      → m ≤ r.capacity - length (contents r)
      → m ≤ length objs
      → contents (enqueued r objs m) ≡ contents r ++ take m objs
  contents-enqueued objs m fits has =
      contents_after bits r.size r.mask r.prod.tail r.prod.head r.cons.tail m r.ring objs bits_le
        sized masked prod_head stored prod_lt cons_lt
        (omega (arith, length-contents r, fits, used_le, capacity_lt)) has

  enqueue_outcome-IsValid :
      (objs : List ℕ) (m : ℕ) → m ≤ room_of r → IsValid (enqueue_outcome r objs m).ring
  enqueue_outcome-IsValid objs m fits = elim (Bool-cases (m == 0)) [
    | inl none_moved ↦ rw none_moved v
    | inr some_moved ↦ rw some_moved (enqueued-IsValid objs m (omega (arith, room)))
  ]

  enqueue_outcome-view :
      (objs : List ℕ) (m : ℕ)
      → m ≤ room_of r
      → m ≤ length objs
      → view (enqueue_outcome r objs m) ≡ (m, room_of r - m, contents r ++ take m objs, objs)
  enqueue_outcome-view objs zero fits has = tuple_path refl (omega arith) (sym (append-nil _)) refl
  enqueue_outcome-view objs (suc m) fits has = rw (suc-ne-zero m) (
      tuple_path refl (omega arith) (contents-enqueued objs (suc m) (omega (arith, room)) has) refl)

-- On a valid ring an enqueue of `n` entries returns, whichever its mode. The ring is valid again
-- with its capacity, and the number moved, the space left, the contents and the table are those of the bounded queue.
pub do_enqueue_refines :
    {r : Ringb} (objs : List ℕ) (n : ℕ) (b : Behavior) (is_sp : Bool)
    → IsValid r
    → n ≤ length objs
    → (out : Outcome) × (do_enqueue r objs n b is_sp ≡ some out)
      × IsValid out.ring
      × (out.ring.capacity ≡ r.capacity)
      × (view out ≡ Queue.enqueue r.capacity (contents r) objs n b)
unfolding Queue.enqueue
do_enqueue_refines {r} objs n b is_sp v has =
    let m = allowed b n (room_of r) in
    let bound = allowed-le b n (room_of r) in
    (
      enqueue_outcome r objs m,
      do_enqueue-run r objs n b is_sp v.prod_head,
      enqueue_outcome-IsValid v objs m bound.1,
      capacity-enqueue_outcome r objs m,
      enqueue_outcome-view v objs m bound.1 (omega (arith, bound.0))
          ∙ ap
              (λ t.
                (allowed b n t, t - allowed b n t, contents r ++ take (allowed b n t) objs, objs))
              (room v)
          ∙ ap (λ k. (k, r.capacity - length (contents r) - k, contents r ++ take k objs, objs))
              (allowed-movable b n (r.capacity - length (contents r))),
    )
