-- ===== src/Pgalloc/Thread.antt =====
-- src/mm/pgalloc.c: the single pages that each thread keeps, between its calls and a zone. The system has one node,
-- whose zone is the zone of every page.
pub mod Keeps
pub mod Gives
mod Tests
use skp.Common.{
  ℕ, zero, suc, ◌+◌, ◌-◌, Bool, Option, none, some, List, [], ◌∷◌, ◌++◌, leb, if◌then◌else◌,
}
use skp.Pgalloc.{Zone, rmqueue, free_pages_bulk}

-- `struct page_tls`
pub record PageTls : Type 0 where
  pub count : ℕ
  pub low : ℕ
  pub high : ℕ
  pub batch : ℕ
  pub list : List ℕ

-- The last page of a list and the others: `last_page_on_list`, and `del_page_from_list` of it.
abbrev pub take_last : List ℕ → Option (List ℕ × ℕ)
take_last [] = none
take_last (p ∷ ps) = elim (take_last ps) [
  | none ↦ some ([], p)
  | some (others, last) ↦ some (p ∷ others, last)
]

module _ (top : ℕ) where
  -- `rmqueue_bulk`: how many pages came, the zone, and the list with them at its end
  pub rmqueue_bulk : Zone → ℕ → ℕ → List ℕ → Option (ℕ × Zone × List ℕ)
  rmqueue_bulk zone order zero list = some (0, zone, list)
  rmqueue_bulk zone order (suc count) list = elim (rmqueue top zone order) [
    | none ↦ none
    | some (none, z) ↦ some (0, z, list)
    | some (some page, z) ↦ elim (rmqueue_bulk z order count (list ++ (page ∷ []))) [
      | none ↦ none
      | some (nr, z', list') ↦ some (suc nr, z', list')
    ]
  ]

  -- `free_pages_bulk` of single pages: how many went, the blocks that the system got, the zone, and what is left of
  -- the list
  pub free_list_bulk : Zone → ℕ → List ℕ → Option (ℕ × List ℕ × Zone × List ℕ)
  free_list_bulk zone zero list = some (0, [], zone, list)
  free_list_bulk zone (suc count) list = elim (take_last list) [
    | none ↦ some (0, [], zone, list)
    | some (others, page) ↦ elim (free_pages_bulk top zone page 0) [
      | none ↦ none
      | some (blocks, z) ↦ elim (free_list_bulk z count others) [
        | none ↦ none
        | some (rc, more, z', left) ↦ some (suc rc, blocks ++ more, z', left)
      ]
    ]
  ]

  -- `free_hot_page`, where the thread has its list: the blocks that the system got, the zone, and the list
  pub free_hot_page : Zone → PageTls → ℕ → Option (List ℕ × Zone × PageTls)
  free_hot_page zone tls page =
      elim (if leb tls.high tls.count
        then free_list_bulk zone tls.batch tls.list
        else some (0, [], zone, tls.list)) [
          | none ↦ none
          | some (rc, blocks, z, list) ↦
              some (blocks, z, record tls { count = tls.count - rc + 1; list = page ∷ list })
        ]

  -- What `buffered_rmqueue` does for a single page, where the thread has its list: the page, or NULL.
  pub hot_page : Zone → PageTls → Option (Option ℕ × Zone × PageTls)
  hot_page zone tls =
      elim (if leb tls.count tls.low
        then rmqueue_bulk zone 0 tls.batch tls.list
        else some (0, zone, tls.list)) [
          | none ↦ none
          | some (nr, z, []) ↦ some (none, z, record tls { count = tls.count + nr; list = [] })
          | some (nr, z, page ∷ rest) ↦
              some (some page, z, record tls { count = tls.count + nr - 1; list = rest })
        ]
