-- ===== src/Pgalloc/Tests.antt =====
-- Runs of the buddy allocator of src/mm/pgalloc.c on a small zone, and its theorems at it.
use skp.Common.{
  ℕ, zero, suc, ◌^◌, ◌<◌, ◌≡◌, refl, ◌+◌, true, Option, none, some, List, [], ◌∷◌, ◌==◌,
  if◌then◌else◌, arith, length,
}
use skp.Pgalloc.{
  no_area, Zone, area_at, take_block, rmqueue_from, rmqueue, take_buddy, merge, put_block, reclaim,
  free_pages_bulk,
}
use skp.Pgalloc.Weigh.{weigh, pages, weigh_from, contains, AllAligned, IsValid}
use skp.Pgalloc.Take.{Removes, rmqueue-Removes}
use skp.Pgalloc.Bulk.{Freed, free_pages_bulk-Freed}

-- the order marks of pages 2 and 4
abbrev two_marks : ℕ → Option ℕ
two_marks p = if p == 2 then some 1 else if p == 4 then some 2 else none

-- of pages 0 to 7, pages 0 and 1 are in use
abbrev six_pages : Zone
six_pages = record {
  free_pages = 6;
  free_area =
      no_area
      ∷ record { free_list = 2 ∷ []; nr_free = 1 }
      ∷ record { free_list = 4 ∷ []; nr_free = 1 }
      ∷ [];
  page_order = two_marks;
  has_free = true;
}

six_pages_counts : (k : ℕ) → (area_at six_pages k).nr_free ≡ length (area_at six_pages k).free_list
six_pages_counts zero = refl
six_pages_counts (suc zero) = refl
six_pages_counts (suc (suc zero)) = refl
six_pages_counts (suc (suc (suc k))) = refl

six_pages_aligned : (k : ℕ) → AllAligned k (area_at six_pages k).free_list
six_pages_aligned zero = tt
six_pages_aligned (suc zero) = ((1, refl), tt)
six_pages_aligned (suc (suc zero)) = ((1, refl), tt)
six_pages_aligned (suc (suc (suc k))) = tt

six_pages_marked :
    (p k : ℕ) → two_marks p ≡ some k → k < 2 → contains p (area_at six_pages k).free_list ≡ true
six_pages_marked p zero o lt = ground (arith, o, lt)
six_pages_marked p (suc zero) o lt = ground (arith, o, lt)
six_pages_marked p (suc (suc k)) o lt = absurd (omega (arith, lt))

six_pages-IsValid : IsValid 2 six_pages
unfolding weigh_from
six_pages-IsValid = record {
  listed = record {
    orders = refl;
    counts = six_pages_counts;
    aligned = six_pages_aligned;
    marked = six_pages_marked;
  };
  total = refl;
  room = omega arith;
  bit = refl;
}

rmqueue-Removes_example : Removes 2 six_pages 0 0 (rmqueue 2 six_pages 0)
rmqueue-Removes_example = rmqueue-Removes 2 six_pages 0 six_pages-IsValid (omega arith)

six_pages_room : weigh pages six_pages + 2 ^ 1 < 2 ^ 32
unfolding weigh_from
six_pages_room = omega arith

free_pages_bulk-Freed_example : Freed 2 six_pages 1 0 (free_pages_bulk 2 six_pages 0 1)
free_pages_bulk-Freed_example =
    free_pages_bulk-Freed 2 six_pages 0 1 six_pages-IsValid (omega arith) (0, refl) six_pages_room

-- The block at 0 is joined with its buddy 2, and the block of order 2 that comes of it goes to the system.
abbrev blocks_of : Option (List ℕ × Zone) → List ℕ
blocks_of none = []
blocks_of (some (blocks, zone)) = blocks

abbrev pages_left : Option (List ℕ × Zone) → ℕ
pages_left none = 0
pages_left (some (blocks, zone)) = zone.free_pages

freed_runs : blocks_of (free_pages_bulk 2 six_pages 0 1) ≡ 0 ∷ []
unfolding free_pages_bulk merge take_buddy put_block reclaim
freed_runs = refl

freed_left : pages_left (free_pages_bulk 2 six_pages 0 1) ≡ 4
unfolding free_pages_bulk merge take_buddy put_block reclaim
freed_left = refl

abbrev page_of : Option (Option ℕ × Zone) → Option ℕ
page_of none = none
page_of (some (page, zone)) = page

taken_runs : page_of (rmqueue 2 six_pages 0) ≡ some 2
unfolding rmqueue rmqueue_from take_block
taken_runs = refl
