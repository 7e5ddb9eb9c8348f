-- ===== src/Ring/Dequeue.antt =====
-- `__ringb_do_dequeue` of src/adt/ring.c on a valid ring, against the queue of its contents.
use skp.Common.{
  ℕ, zero, suc, ◌-◌, ◌^◌, ◌≤◌, ◌<◌, ◌≡◌, refl, ap, ◌∙◌, List, ◌++◌, arith, length, take, drop, Bool,
  Bool-cases, inl, inr, true, false, some, tuple_path, ◌==◌, if◌then◌else◌,
}
use skp.Common.Word.{add32, sub32, u32_mod}
use skp.Ring.{Ringb, Behavior, allowed, Outcome, do_dequeue}
use skp.Ring.Copy.{dequeue_ptrs}
use skp.Ring.Window.{window}
use skp.Ring.Queue
use skp.Ring.Valid.{
  IsValid, contents, view, length-contents, suc-ne-zero, allowed-le, allowed-movable,
}
use skp.Ring.Positions.{window_advance, dequeue_ptrs-take}

-- the ring after `m` entries went out
abbrev dequeued : Ringb → ℕ → Ringb
dequeued r m = record r {
  cons = record r.cons { head = add32 r.cons.head m; tail = add32 r.cons.head m };
}

abbrev held : Ringb → ℕ
held r = sub32 r.prod.tail r.cons.head

abbrev dequeue_outcome : Ringb → List ℕ → ℕ → Outcome
dequeue_outcome r objs m =
    if m == 0
    then record { moved = 0; left = sub32 (held r) 0; ring = r; table = objs }
    else record {
      moved = m;
      left = sub32 (held r) m;
      ring = dequeued r m;
      table = dequeue_ptrs r.size r.mask r.ring r.cons.head objs m;
    }

capacity-dequeue_outcome :
    (r : Ringb) (objs : List ℕ) (m : ℕ) → (dequeue_outcome r objs m).ring.capacity ≡ r.capacity
capacity-dequeue_outcome r objs m = ground arith

do_dequeue-run :
    (r : Ringb) (objs : List ℕ) (n : ℕ) (b : Behavior) (is_sc : Bool)
    → r.cons.head ≡ r.cons.tail
    → do_dequeue r objs n b is_sc ≡ some (dequeue_outcome r objs (allowed b n (held r)))
unfolding do_dequeue
do_dequeue-run r objs n b true quiet = ground arith
do_dequeue-run r objs n b false quiet = ground arith

-- the contents and the table afterwards, over the fields alone
contents_left :
    (k size pt ct ch m : ℕ) (ring objs : List ℕ)
    → k ≤ 31
    → size ≡ 2 ^ k
    → ch ≡ ct
    → length ring ≡ 2 ^ k
    → pt < u32_mod
    → ct < u32_mod
    → m ≤ sub32 pt ct
    → window size ring (add32 ch m) (sub32 pt (add32 ch m))
      ≡ drop m (window size ring ct (sub32 pt ct))
contents_left k size pt ct ch m ring objs k_le es ec stored pt_lt ct_lt le =
    rw (es, ec) (window_advance k pt ct ring objs k_le stored pt_lt ct_lt m le)

table_after :
    (k size mask pt ct ch m : ℕ) (ring objs : List ℕ)
    → k ≤ 31
    → size ≡ 2 ^ k
    → mask ≡ 2 ^ k - 1
    → ch ≡ ct
    → length ring ≡ 2 ^ k
    → pt < u32_mod
    → ct < u32_mod
    → m ≤ sub32 pt ct
    → m < 2 ^ k
    → m ≤ length objs
    → dequeue_ptrs size mask ring ch objs m
      ≡ take m (window size ring ct (sub32 pt ct)) ++ drop m objs
table_after k size mask pt ct ch m ring objs k_le es em ec stored pt_lt ct_lt le small has =
    rw (es, em, ec) (dequeue_ptrs-take k pt ct ring objs k_le stored pt_lt ct_lt m le small has)

module _ {r : Ringb} (v : IsValid r) where
  open v use {
    bits, bits_le, sized, masked, capacity_lt, stored, prod_head, cons_head, prod_lt, cons_lt,
    used_le,
  }

  held-length : held r ≡ length (contents r)
  held-length = omega (arith, length-contents r, cons_head)

  dequeue_outcome-IsValid :
      (objs : List ℕ) (m : ℕ) → m ≤ held r → IsValid (dequeue_outcome r objs m).ring
  dequeue_outcome-IsValid objs m fits = elim (Bool-cases (m == 0)) [
    | inl none_moved ↦ rw none_moved v
    | inr some_moved ↦ rw some_moved (record {
      bits = bits;
      bits_le = bits_le;
      sized = sized;
      masked = masked;
      capacity_lt = capacity_lt;
      stored = stored;
      prod_head = prod_head;
      cons_head = refl;
      prod_lt = prod_lt;
      cons_lt = omega arith;
      used_le = omega (arith, fits, cons_head, used_le, prod_lt, cons_lt);
    })
  ]

  dequeue_outcome-view :
      (objs : List ℕ) (m : ℕ)
      → m ≤ held r
      → m ≤ length objs
      → view (dequeue_outcome r objs m)
        ≡ (m, held r - m, drop m (contents r), take m (contents r) ++ drop m objs)
  dequeue_outcome-view objs zero fits has = tuple_path refl (omega arith) refl refl
  dequeue_outcome-view objs (suc m) fits has =
      let used : suc m ≤ sub32 r.prod.tail r.cons.tail = omega (arith, fits, cons_head) in
      rw (suc-ne-zero m) (
        tuple_path refl (omega arith)
          (contents_left bits r.size r.prod.tail r.cons.tail r.cons.head (suc m) r.ring objs bits_le
            sized cons_head stored prod_lt cons_lt used)
          (table_after bits r.size r.mask r.prod.tail r.cons.tail r.cons.head (suc m) r.ring objs
            bits_le sized masked cons_head stored prod_lt cons_lt used
            (omega (arith, used, used_le, capacity_lt)) has))

-- On a valid ring a dequeue of `n` entries returns, whichever its mode. The ring is valid again
-- with its capacity, and the number moved, the number left, the contents and the table are those of the queue.
pub do_dequeue_refines :
    {r : Ringb} (objs : List ℕ) (n : ℕ) (b : Behavior) (is_sc : Bool)
    → IsValid r
    → n ≤ length objs
    → (out : Outcome) × (do_dequeue r objs n b is_sc ≡ some out)
      × IsValid out.ring
      × (out.ring.capacity ≡ r.capacity)
      × (view out ≡ Queue.dequeue (contents r) objs n b)
unfolding Queue.dequeue
do_dequeue_refines {r} objs n b is_sc v has =
    let m = allowed b n (held r) in
    let bound = allowed-le b n (held r) in
    (
      dequeue_outcome r objs m,
      do_dequeue-run r objs n b is_sc v.cons_head,
      dequeue_outcome-IsValid v objs m bound.1,
      capacity-dequeue_outcome r objs m,
      dequeue_outcome-view v objs m bound.1 (omega (arith, bound.0))
          ∙ ap
              (λ t. (
                allowed b n t,
                t - allowed b n t,
                drop (allowed b n t) (contents r),
                take (allowed b n t) (contents r) ++ drop (allowed b n t) objs,
              ))
              (held-length v)
          ∙ ap
              (λ k. (
                k,
                length (contents r) - k,
                drop k (contents r),
                take k (contents r) ++ drop k objs,
              ))
              (allowed-movable b n (length (contents r))),
    )
