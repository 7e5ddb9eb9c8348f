-- ===== src/Pgalloc/Thread/Tests.antt =====
-- Runs of a thread's list of src/mm/pgalloc.c with a small zone, and the theorems at them.
use mathlib.Core.Option.{none-ne-some}
use skp.Common.{length, true, ℕ, zero, suc, ◌≡◌, refl, none, [], ◌∷◌, arith}
use skp.Pgalloc.{Zone, no_area, area_at}
use skp.Pgalloc.Weigh.{weigh_from, AllAligned, IsValid}
use skp.Pgalloc.Thread.{PageTls, free_hot_page, hot_page}
use skp.Pgalloc.Thread.Keeps.{IsKept, Handed, hot_page-Handed}
use skp.Pgalloc.Thread.Gives.{Given, free_hot_page-Given}

-- a block of two pages, at page 2
abbrev two_free : Zone
two_free = record {
  free_pages = 2;
  free_area = no_area ∷ record { free_list = 2 ∷ []; nr_free = 1 } ∷ [];
  page_order = λ p. none;
  has_free = true;
}

abbrev one_hot : PageTls
one_hot = record { count = 1; low = 2; high = 1; batch = 1; list = 7 ∷ [] }

two_free_counts : (k : ℕ) → (area_at two_free k).nr_free ≡ length (area_at two_free k).free_list
two_free_counts zero = refl
two_free_counts (suc zero) = refl
two_free_counts (suc (suc k)) = refl

two_free_aligned : (k : ℕ) → AllAligned k (area_at two_free k).free_list
two_free_aligned zero = tt
two_free_aligned (suc zero) = ((1, refl), tt)
two_free_aligned (suc (suc k)) = tt

two_free-IsValid : IsValid 1 two_free
unfolding weigh_from
two_free-IsValid = record {
  listed = record {
    orders = refl;
    counts = two_free_counts;
    aligned = two_free_aligned;
    marked = λ p k o lt. absurd (none-ne-some k o);
  };
  total = refl;
  room = omega arith;
  bit = refl;
}

one_hot-IsKept : IsKept 1 two_free one_hot 1
unfolding weigh_from
one_hot-IsKept = record {
  holds = record { valid = two_free-IsValid; room = omega arith };
  counted = refl;
}

hot_page-Handed_example : Handed 1 two_free one_hot 1 (hot_page 1 two_free one_hot)
hot_page-Handed_example = hot_page-Handed 1 two_free one_hot 1 one_hot-IsKept

free_hot_page-Given_example : Given 1 two_free one_hot 0 0 (free_hot_page 1 two_free one_hot 0)
free_hot_page-Given_example = free_hot_page-Given 1 two_free one_hot 0 0 one_hot-IsKept
