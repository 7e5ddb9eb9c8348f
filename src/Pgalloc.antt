-- ===== src/Pgalloc.antt =====
-- src/mm/pgalloc.c: the blocks of 2 ^ order pages that a zone has free, and the taking and giving back of
-- one, with the zone's lock held. A page is its index in the map of its node, a list its first
-- pages. `top` is MAX_ORDER - 1, a value of the build.
pub mod Weigh
pub mod Split
pub mod Take
pub mod Buddy
pub mod Merge
pub mod Free
pub mod Bulk
pub mod Thread
mod Tests
use Prim.Native.Nat.{bit_and, bit_xor}
use skp.Common.{
  ℕ, zero, suc, ◌+◌, ◌-◌, ◌^◌, Bool, true, false, not, ◌&&◌, Option, none, some, List, [], ◌∷◌,
  ◌++◌, ◌==◌, ltb, if◌then◌else◌, get_or, set,
}
use skp.Common.Word.{add32, sub32}

-- `struct free_area`
pub record FreeArea : Type 0 where
  pub free_list : List ℕ
  pub nr_free : ℕ

abbrev pub no_area : FreeArea
no_area = record { free_list = []; nr_free = 0 }

-- `struct zone`, with `page_order` of each page of the node, where it is not -1, and the bit of the node
-- in `node_map.has_free`
pub record Zone : Type 0 where
  pub free_pages : ℕ
  pub free_area : List FreeArea
  pub page_order : ℕ → Option ℕ
  pub has_free : Bool

abbrev pub area_at : Zone → ℕ → FreeArea
area_at zone k = get_or zone.free_area k no_area

abbrev pub store_area : Zone → ℕ → FreeArea → Zone
store_area zone k area = record zone { free_area = set zone.free_area k area }

pub set_page_order : (ℕ → Option ℕ) → ℕ → Option ℕ → ℕ → Option ℕ
set_page_order orders page order p = if p == page then order else orders p

-- `page_is_buddy`
abbrev pub is_order : Option ℕ → ℕ → Bool
is_order none order = false
is_order (some k) order = k == order

-- `del_page_from_list`
abbrev pub del_page : List ℕ → ℕ → List ℕ
del_page [] page = []
del_page (p ∷ ps) page = let rest = del_page ps page in if p == page then ps else p ∷ rest

-- One turn of the loop of `expand`: the second half of a block goes to the list below.
pub split_off : Zone → ℕ → ℕ → Zone
split_off zone page high =
    let area = area_at zone high in
    let half = page + 2 ^ high in
    store_area (record zone { page_order = set_page_order zone.page_order half (some high) }) high
      (record { free_list = area.free_list ++ (half ∷ []); nr_free = suc area.nr_free })

-- `expand`, of a block of order `low + more`
pub expand : Zone → ℕ → ℕ → ℕ → Zone
expand zone page low zero = zone
expand zone page low (suc more) = expand (split_off zone page (low + more)) page low more

-- What `__rmqueue` does with the first block of list `k`; `none` stands for a list that is empty against its
-- counter.
pub take_block : Zone → ℕ → ℕ → Option (Option ℕ × Zone)
take_block zone order k = elim (area_at zone k).free_list [
  | [] ↦ none
  | page ∷ rest ↦
      let z1 =
        store_area (record zone { page_order = set_page_order zone.page_order page none }) k
          (record { free_list = rest; nr_free = (area_at zone k).nr_free - 1 }) in
      let left = sub32 zone.free_pages (2 ^ order) in
      let z2 = expand (record z1 { free_pages = left }) page order (k - order) in
      some (some page, record z2 { has_free = if left == 0 then false else z2.has_free })
]

-- The loop of `__rmqueue` over the orders from `k` on, of which there are `n`: the page, or NULL.
pub rmqueue_from : Zone → ℕ → ℕ → ℕ → Option (Option ℕ × Zone)
rmqueue_from zone order k zero = some (none, zone)
rmqueue_from zone order k (suc n) =
    let rest = rmqueue_from zone order (suc k) n in
    if (area_at zone k).nr_free == 0 then rest else take_block zone order k

pub rmqueue : ℕ → Zone → ℕ → Option (Option ℕ × Zone)
rmqueue top zone order = rmqueue_from zone order order (suc top - order)

-- The buddy leaves its list, to be one with the block.
pub take_buddy : Zone → ℕ → ℕ → Zone
take_buddy zone buddy order =
    let area = area_at zone order in
    store_area (record zone { page_order = set_page_order zone.page_order buddy none }) order
      (record { free_list = del_page area.free_list buddy; nr_free = area.nr_free - 1 })

-- A block, its order, and the zone.
pub record Block : Type 0 where
  pub page : ℕ
  pub order : ℕ
  pub zone : Zone

-- The loop of `__free_pages_bulk`: `more` is how far the order is from `top`.
pub merge : Zone → ℕ → ℕ → ℕ → Block
merge zone page order zero = record { page = page; order = order; zone = zone }
merge zone page order (suc more) =
    let buddy = bit_xor page (2 ^ order) in
    let joined = merge (take_buddy zone buddy order) (bit_and page buddy) (suc order) more in
    if is_order (zone.page_order buddy) order
    then joined
    else record { page = page; order = order; zone = zone }

pub put_block : Block → Zone
put_block b =
    let area = area_at b.zone b.order in
    store_area
      (record b.zone { page_order = set_page_order b.zone.page_order b.page (some b.order) })
      b.order (record { free_list = b.page ∷ area.free_list; nr_free = suc area.nr_free })

-- The loop that gives blocks of order `top` back to the system, `n` of them: these blocks, last first. They keep
-- their order. `none` stands for a list that is empty against its counter.
pub reclaim : ℕ → Zone → ℕ → List ℕ → Option (List ℕ × Zone)
reclaim top zone zero taken = some (taken, zone)
reclaim top zone (suc n) taken = elim (area_at zone top).free_list [
  | [] ↦ none
  | page ∷ rest ↦
      let left = sub32 zone.free_pages (2 ^ top) in
      let z1 =
        store_area zone top
          (record { free_list = rest; nr_free = (area_at zone top).nr_free - 1 }) in
      reclaim top
        (record z1 { free_pages = left; has_free = if left == 0 then false else zone.has_free }) n
        (page ∷ taken)
]

-- `__free_pages_bulk`: the blocks that went back to the system, and the zone.
pub free_pages_bulk : ℕ → Zone → ℕ → ℕ → Option (List ℕ × Zone)
free_pages_bulk top zone page order =
    let z1 = record zone {
      has_free = if zone.free_pages == 0 then true else zone.has_free;
      free_pages = add32 zone.free_pages (2 ^ order);
    } in
    let block = merge z1 page order (top - order) in
    let z2 = put_block block in
    if ltb block.order top then some ([], z2) else reclaim top z2 ((area_at z2 top).nr_free - 1) []
