-- ===== src/Pgalloc/Thread/Gives.antt =====
-- The giving back of a single page to a thread's list in src/mm/pgalloc.c.
use skp.Common.{
  ℕ, zero, suc, ◌+◌, ◌-◌, ◌≡◌, inl, inr, refl, sym, ap, ◌∙◌, Bool-cases, Option, Option-cases, none,
  some, List, [], ◌∷◌, ◌++◌, leb, if◌then◌else◌, length, length-append, arith,
}
use mathlib.Core.Option.{some-injective, none-ne-some}
use skp.Pgalloc.{Zone, free_pages_bulk}
use skp.Pgalloc.Weigh.{weigh_list, weigh_list-append, IsAligned, covers}
use skp.Pgalloc.Bulk.{free_pages_bulk-Freed}
use skp.Pgalloc.Thread.{PageTls, take_last, free_list_bulk, free_hot_page}
use skp.Pgalloc.Thread.Keeps.{held, Holds, IsKept}

single : (p : ℕ) → IsAligned 0 p
single p = (p, omega arith)

take_last-append :
    (list others : List ℕ) (page : ℕ)
    → take_last list ≡ some (others, page)
    → list ≡ others ++ (page ∷ [])
take_last-append [] others page e = cc
take_last-append (p ∷ ps) others page e = elim (Option-cases (take_last ps)) [
  | inl nothing ↦
      let one : ([], p) ≡ (others, page) = some-injective _ _ (sym (ap joined nothing) ∙ e) in
      let empty : ps ≡ [] = take_last_none ps nothing in
      ap (◌∷◌ p) empty ∙ ap (λ (t : List ℕ × ℕ). t.0 ++ (t.1 ∷ [])) one
  | inr ((front, last), found) ↦
      let same : (p ∷ front, last) ≡ (others, page) =
        some-injective _ _ (sym (ap joined found) ∙ e) in
      ap (◌∷◌ p) (take_last-append ps front last found)
      ∙ ap (λ (t : List ℕ × ℕ). t.0 ++ (t.1 ∷ [])) same
]
  where
    joined : Option (List ℕ × ℕ) → Option (List ℕ × ℕ)
    joined none = some ([], p)
    joined (some (others, last)) = some (p ∷ others, last)

    take_last_none : (l : List ℕ) → take_last l ≡ none → l ≡ []
    take_last_none [] h = refl
    take_last_none (q ∷ qs) h = elim (Option-cases (take_last qs)) [
      | inl nothing ↦ absurd (none-ne-some _ (sym h ∙ ap (joined_with q) nothing))
      | inr (t, found) ↦ absurd (none-ne-some _ (sym h ∙ ap (joined_with q) found))
    ]
      where
        joined_with : ℕ → Option (List ℕ × ℕ) → Option (List ℕ × ℕ)
        joined_with q none = some ([], q)
        joined_with q (some (others, last)) = some (q ∷ others, last)

-- What the giving back of some pages of a list leaves.
record Drained (top : ℕ) (zone : Zone) (list : List ℕ) (more : ℕ)
    (result : Option (ℕ × List ℕ × Zone × List ℕ)) : Type 0 where
  rc : ℕ
  blocks : List ℕ
  zone' : Zone
  left : List ℕ
  runs : result ≡ some (rc, blocks, zone', left)
  holds : Holds top zone' left more
  number : length left + rc ≡ length list
  same : (x : ℕ) → held x zone' left + weigh_list (covers x) top blocks ≡ held x zone list

free_list_bulk-Drained :
    (top : ℕ) (zone : Zone) (count : ℕ) (list : List ℕ) (more : ℕ)
    → Holds top zone list more
    → Drained top zone list more (free_list_bulk top zone count list)
unfolding free_list_bulk
free_list_bulk-Drained top zone zero list more h = record {
  rc = 0;
  blocks = [];
  zone' = zone;
  left = list;
  runs = refl;
  holds = h;
  number = omega arith;
  same = λ x. omega arith;
}
free_list_bulk-Drained top zone (suc count) list more h = elim (Option-cases (take_last list)) [
  | inl empty ↦ record {
    rc = 0;
    blocks = [];
    zone' = zone;
    left = list;
    runs = ap with_last empty;
    holds = h;
    number = omega arith;
    same = λ x. omega arith;
  }
  | inr ((others, page), last) ↦
      let whole = take_last-append list others page last in
      let one_less : length list ≡ length others + 1 =
        ap length whole ∙ length-append others (page ∷ []) in
      let freed =
        free_pages_bulk-Freed top zone page 0 h.valid (omega arith) (single page)
          (omega (arith, h.room, one_less)) in
      let rest =
        free_list_bulk-Drained top freed.zone' count others more
          (record { valid = freed.valid; room = omega (arith, h.room, freed.amount, one_less) }) in
      record {
        rc = suc rest.rc;
        blocks = freed.blocks ++ rest.blocks;
        zone' = rest.zone';
        left = rest.left;
        runs =
            ap with_last last
            ∙ ap (with_freed others) freed.runs
            ∙ ap (with_rest freed.blocks) rest.runs;
        holds = rest.holds;
        number = omega (arith, rest.number, one_less);
        same = λ x. omega (
          arith,
          rest.same x,
          freed.covered x,
          weigh_list-append (covers x) top freed.blocks rest.blocks,
          weigh_list-append (covers x) 0 others (page ∷ []),
          ap (weigh_list (covers x) 0) whole,
        );
      }
]
  where
    with_rest : List ℕ → Option (ℕ × List ℕ × Zone × List ℕ) → Option (ℕ × List ℕ × Zone × List ℕ)
    with_rest blocks none = none
    with_rest blocks (some (rc, bs, z', left)) = some (suc rc, blocks ++ bs, z', left)

    with_freed : List ℕ → Option (List ℕ × Zone) → Option (ℕ × List ℕ × Zone × List ℕ)
    with_freed others none = none
    with_freed others (some (blocks, z)) = with_rest blocks (free_list_bulk top z count others)

    with_last : Option (List ℕ × ℕ) → Option (ℕ × List ℕ × Zone × List ℕ)
    with_last none = some (0, [], zone, list)
    with_last (some (others, page)) = with_freed others (free_pages_bulk top zone page 0)

-- The page is in the zone, in the list or in a block that the system got as often as it was, and once more for the
-- page given back.
pub record Given (top : ℕ) (zone : Zone) (tls : PageTls) (page more : ℕ)
    (result : Option (List ℕ × Zone × PageTls)) : Type 0 where
  pub blocks : List ℕ
  pub zone' : Zone
  pub tls' : PageTls
  pub runs : result ≡ some (blocks, zone', tls')
  pub kept : IsKept top zone' tls' more
  pub same :
      (x : ℕ)
      → held x zone' tls'.list + weigh_list (covers x) top blocks
        ≡ held x zone tls.list + covers x 0 page

-- In a zone and a list between calls, with room for one page more, `free_hot_page` returns, and they are as they are
-- between calls. Each page is in the zone, the list and the blocks that the system got, together, as often as it was
-- in the zone and the list, and once more if it is the page given back.
pub free_hot_page-Given :
    (top : ℕ) (zone : Zone) (tls : PageTls) (page more : ℕ)
    → IsKept top zone tls (suc more)
    → Given top zone tls page more (free_hot_page top zone tls page)
unfolding free_hot_page
free_hot_page-Given top zone tls page more k = elim (Bool-cases (leb tls.high tls.count)) [
  | inl many ↦
      let all = free_list_bulk-Drained top zone tls.batch tls.list (suc more) k.holds in
      record {
        blocks = all.blocks;
        zone' = all.zone';
        tls' = record tls { count = tls.count - all.rc + 1; list = page ∷ all.left };
        runs =
            ap
              (λ b. with_list (
                if b
                then free_list_bulk top zone tls.batch tls.list
                else some (0, [], zone, tls.list)))
              many
            ∙ ap with_list all.runs;
        kept = record {
          holds = record { valid = all.holds.valid; room = omega (arith, all.holds.room) };
          counted = omega (arith, k.counted, all.number);
        };
        same = λ x. omega (arith, all.same x);
      }
  | inr few ↦ record {
    blocks = [];
    zone' = zone;
    tls' = record tls { count = tls.count - 0 + 1; list = page ∷ tls.list };
    runs =
        ap
          (λ b. with_list (
            if b then free_list_bulk top zone tls.batch tls.list else some (0, [], zone, tls.list)))
          few;
    kept = record {
      holds = record { valid = k.holds.valid; room = omega (arith, k.holds.room) };
      counted = omega (arith, k.counted);
    };
    same = λ x. omega arith;
  }
]
  where
    with_list : Option (ℕ × List ℕ × Zone × List ℕ) → Option (List ℕ × Zone × PageTls)
    with_list none = none
    with_list (some (rc, blocks, z, list)) =
        some (blocks, z, record tls { count = tls.count - rc + 1; list = page ∷ list })
