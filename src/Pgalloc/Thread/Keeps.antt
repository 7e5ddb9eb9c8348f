-- ===== src/Pgalloc/Thread/Keeps.antt =====
-- The pages of a thread and of its zone in src/mm/pgalloc.c, together: none is lost and none is there twice.
use mathlib.Core.Path.{subst}
use skp.Common.{
  ℕ, zero, suc, ◌+◌, ◌-◌, ◌<◌, ◌≡◌, inl, inr, refl, sym, ap, ◌∙◌, Bool-cases, Option, none, some,
  List, [], ◌∷◌, ◌++◌, leb, if◌then◌else◌, length, length-append, arith,
}
use skp.Common.Word.{u32_mod}
use skp.Pgalloc.{Zone}
use skp.Pgalloc.Weigh.{List-cases, weigh, weigh_list, weigh_list-append, pages, covers, IsValid}
use skp.Pgalloc.Take.{rmqueue-Removes}
use skp.Pgalloc.Thread.{PageTls, rmqueue_bulk, hot_page}

-- how often a page is in the zone and in a list of single pages
abbrev pub held : ℕ → Zone → List ℕ → ℕ
held x zone list = weigh (covers x) zone + weigh_list (covers x) 0 list

-- What holds of a zone and a list between calls, with room for `more` pages.
pub record Holds (top : ℕ) (zone : Zone) (list : List ℕ) (more : ℕ) : Type 0 where
  pub valid : IsValid top zone
  pub room : weigh pages zone + length list + more < u32_mod

-- What holds of a thread's list and the zone between calls.
pub record IsKept (top : ℕ) (zone : Zone) (tls : PageTls) (more : ℕ) : Type 0 where
  pub holds : Holds top zone tls.list more
  pub counted : tls.count ≡ length tls.list

-- What the taking of some pages into a list leaves.
record Moved (top : ℕ) (zone : Zone) (list : List ℕ) (result : Option (ℕ × Zone × List ℕ))
    : Type 0 where
  nr : ℕ
  zone' : Zone
  list' : List ℕ
  runs : result ≡ some (nr, zone', list')
  holds : (more : ℕ) → Holds top zone list more → Holds top zone' list' more
  number : length list' ≡ length list + nr
  same : (x : ℕ) → held x zone' list' ≡ held x zone list

rmqueue_bulk-Moved :
    (top : ℕ) (zone : Zone) (count : ℕ) (list : List ℕ)
    → IsValid top zone
    → Moved top zone list (rmqueue_bulk top zone 0 count list)
unfolding rmqueue_bulk
rmqueue_bulk-Moved top zone zero list v = record {
  nr = 0;
  zone' = zone;
  list' = list;
  runs = refl;
  holds = λ more h. h;
  number = omega arith;
  same = λ x. refl;
}
rmqueue_bulk-Moved top zone (suc count) list v = elim (rmqueue-Removes top zone 0 v (omega arith)) [
  | inr (null, empty) ↦ record {
    nr = 0;
    zone' = zone;
    list' = list;
    runs = ap with_page null;
    holds = λ more h. h;
    number = omega arith;
    same = λ x. refl;
  }
  | inl (page, z, got, taken) ↦
      let rest = rmqueue_bulk-Moved top z count (list ++ (page ∷ [])) taken.valid in
      record {
        nr = suc rest.nr;
        zone' = rest.zone';
        list' = rest.list';
        runs = ap with_page got ∙ ap with_rest rest.runs;
        holds = λ more h. rest.holds more (record {
          valid = taken.valid;
          room = omega (arith, h.room, taken.fewer, length-append list (page ∷ []));
        });
        number = omega (arith, rest.number, length-append list (page ∷ []));
        same = λ x.
            omega (
              arith,
              rest.same x,
              taken.covered x,
              weigh_list-append (covers x) 0 list (page ∷ []),
            );
      }
]
  where
    with_rest : Option (ℕ × Zone × List ℕ) → Option (ℕ × Zone × List ℕ)
    with_rest none = none
    with_rest (some (nr, z', list')) = some (suc nr, z', list')

    with_page : Option (Option ℕ × Zone) → Option (ℕ × Zone × List ℕ)
    with_page none = none
    with_page (some (none, z)) = some (0, z, list)
    with_page (some (some page, z)) = with_rest (rmqueue_bulk top z 0 count (list ++ (page ∷ [])))

-- A page was taken from the list, or NULL is returned with the list empty.
pub data Handed (top : ℕ) (zone : Zone) (tls : PageTls) (more : ℕ)
    (result : Option (Option ℕ × Zone × PageTls)) : Type 0 where
  handed :
      (page : ℕ)
      → (zone' : Zone) → (tls' : PageTls) → result ≡ some (some page, zone', tls')
      → IsKept top zone' tls' (suc more)
      → ((x : ℕ) → held x zone' tls'.list + covers x 0 page ≡ held x zone tls.list)
      → Handed top zone tls more result
  null :
      (zone' : Zone)
      → (tls' : PageTls) → result ≡ some (none, zone', tls')
      → IsKept top zone' tls' more
      → tls'.list ≡ []
      → ((x : ℕ) → held x zone' tls'.list ≡ held x zone tls.list)
      → Handed top zone tls more result

-- the list that the page is taken from
refilled :
    (top : ℕ) (zone : Zone) (tls : PageTls) (more : ℕ)
    → IsKept top zone tls more
    → Moved top zone tls.list (
        if leb tls.count tls.low
        then rmqueue_bulk top zone 0 tls.batch tls.list
        else some (0, zone, tls.list))
refilled top zone tls more k = elim (Bool-cases (leb tls.count tls.low)) [
  | inl few ↦
      subst (Moved top zone tls.list)
        (sym (
          ap
            (λ b.
              if b then rmqueue_bulk top zone 0 tls.batch tls.list else some (0, zone, tls.list))
            few))
        (rmqueue_bulk-Moved top zone tls.batch tls.list k.holds.valid)
  | inr enough ↦
      subst (Moved top zone tls.list)
        (sym (
          ap
            (λ b.
              if b then rmqueue_bulk top zone 0 tls.batch tls.list else some (0, zone, tls.list))
            enough))
        (record {
          nr = 0;
          zone' = zone;
          list' = tls.list;
          runs = refl;
          holds = λ m h. h;
          number = omega arith;
          same = λ x. refl;
        })
]

-- In a zone and a list between calls, the taking of a single page returns, and they are as they are between calls. It
-- takes one page out, and each page is in the zone and the list together as often as before, less once for that page;
-- or it returns NULL with the list empty, and each page is there as often as before.
pub hot_page-Handed :
    (top : ℕ) (zone : Zone) (tls : PageTls) (more : ℕ)
    → IsKept top zone tls more
    → Handed top zone tls more (hot_page top zone tls)
unfolding hot_page
hot_page-Handed top zone tls more k =
    let all = refilled top zone tls more k in
    let after = all.holds more k.holds in
    elim (List-cases all.list') [
      | inl empty ↦
          null all.zone' (record tls { count = tls.count + all.nr; list = [] })
            (ap with_list all.runs
              ∙ ap (λ (l : List ℕ). with_list (some (all.nr, all.zone', l))) empty)
            (record {
              holds = record { valid = after.valid; room = omega (arith, after.room) };
              counted = omega (arith, k.counted, all.number, ap length empty);
            })
            refl (λ x. omega (arith, all.same x, ap (weigh_list (covers x) 0) empty))
      | inr (page, rest, list) ↦
          handed page all.zone' (record tls { count = tls.count + all.nr - 1; list = rest })
            (ap with_list all.runs
              ∙ ap (λ (l : List ℕ). with_list (some (all.nr, all.zone', l))) list)
            (record {
              holds = record {
                valid = after.valid;
                room = omega (arith, after.room, ap length list);
              };
              counted = omega (arith, k.counted, all.number, ap length list);
            })
            (λ x. omega (arith, all.same x, ap (weigh_list (covers x) 0) list))
    ]
  where
    with_list : Option (ℕ × Zone × List ℕ) → Option (Option ℕ × Zone × PageTls)
    with_list none = none
    with_list (some (nr, z, [])) = some (none, z, record tls { count = tls.count + nr; list = [] })
    with_list (some (nr, z, page ∷ rest)) =
        some (some page, z, record tls { count = tls.count + nr - 1; list = rest })
