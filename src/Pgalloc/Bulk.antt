-- ===== src/Pgalloc/Bulk.antt =====
-- `__free_pages_bulk` of src/mm/pgalloc.c as a whole.
use skp.Common.{
  ℕ, ◌+◌, ◌-◌, ◌^◌, ◌≤◌, ◌<◌, ◌≡◌, inl, inr, ◌∙◌, true, Bool-cases, Option, some, List, [], ◌==◌,
  if◌then◌else◌, ltb, arith,
}
use skp.Common.Bits.{pow_pos}
use skp.Common.Word.{add32, u32_mod}
use skp.Pgalloc.{Zone, Block, area_at, merge, put_block, free_pages_bulk}
use skp.Pgalloc.Weigh.{
  weigh, weigh_list, IsAligned, pages, covers, pages-Additive, covers-Additive, IsListed, IsValid,
}
use skp.Pgalloc.Merge.{Joins, merge-Joins}
use skp.Pgalloc.Free.{put_block-IsListed, weigh-put_block, put_block_keeps, reclaim-Reclaims}

-- A block of 2 ^ `order` pages was given back: of the pages of the zone and of the block each is in the zone or in a
-- block that went to the system as often as before, and the zone is as it is between calls.
pub record Freed (top : ℕ) (zone : Zone) (order page : ℕ) (result : Option (List ℕ × Zone))
    : Type 0 where
  pub blocks : List ℕ
  pub zone' : Zone
  pub runs : result ≡ some (blocks, zone')
  pub valid : IsValid top zone'
  pub amount : weigh pages zone' + weigh_list pages top blocks ≡ weigh pages zone + 2 ^ order
  pub covered :
      (x : ℕ)
      → weigh (covers x) zone' + weigh_list (covers x) top blocks
        ≡ weigh (covers x) zone + covers x order page

module _ (top : ℕ) (zone : Zone) (page order : ℕ) (v : IsValid top zone) (le : order ≤ top)
    (a : IsAligned order page) (room : weigh pages zone + 2 ^ order < u32_mod) where
  abbrev counted : Zone
  counted = record zone {
    has_free = if zone.free_pages == 0 then true else zone.has_free;
    free_pages = add32 zone.free_pages (2 ^ order);
  }

  abbrev block : Block
  block = merge counted page order (top - order)

  joins : Joins top counted order page block
  joins =
      merge-Joins top counted page order (top - order)
        (record {
          orders = v.listed.orders;
          counts = v.listed.counts;
          aligned = v.listed.aligned;
          marked = v.listed.marked;
        })
        (omega (arith, le)) a

  listed : IsListed top (put_block block)
  listed = put_block-IsListed top block joins.listed joins.low joins.aligned

  more_free : counted.free_pages ≡ zone.free_pages + 2 ^ order
  more_free = omega (arith, v.total, room)

  bit_set : counted.has_free ≡ true
  bit_set = ground (arith, v.bit)

  put : (w : ℕ → ℕ → ℕ) → weigh w (put_block block) ≡ weigh w block.zone + w block.order block.page
  put = weigh-put_block top block joins.listed joins.low joins.aligned

  pages_more : weigh pages (put_block block) ≡ weigh pages zone + 2 ^ order
  pages_more = omega (arith, put pages, joins.weights pages pages-Additive)

  covers_more :
      (x : ℕ) → weigh (covers x) (put_block block) ≡ weigh (covers x) zone + covers x order page
  covers_more x = put (covers x) ∙ joins.weights (covers x) (covers-Additive x)

  put_pages : (put_block block).free_pages ≡ zone.free_pages + 2 ^ order
  put_pages =
      (put_block_keeps top block joins.listed joins.low joins.aligned).0
      ∙ joins.same_pages
      ∙ more_free

  put_bit : (put_block block).has_free ≡ true
  put_bit =
      (put_block_keeps top block joins.listed joins.low joins.aligned).1 ∙ joins.same_bit ∙ bit_set

  put-IsValid : IsValid top (put_block block)
  put-IsValid = record {
    listed = listed;
    total = omega (arith, put_pages, pages_more, v.total);
    room = omega (arith, pages_more, room);
    bit = ground (arith, put_bit, put_pages, pow_pos order);
  }

-- In a zone between calls, giving back a block of an order up to the highest that begins at a multiple of its size
-- returns, where the number of pages stays below 2 ^ 32. The zone is as it is between calls, and each page is in the
-- free blocks and in the blocks given to the system together as often as it was in the free blocks and in the block.
pub free_pages_bulk-Freed :
    (top : ℕ) (zone : Zone) (page order : ℕ)
    → IsValid top zone
    → order ≤ top
    → IsAligned order page
    → weigh pages zone + 2 ^ order < u32_mod
    → Freed top zone order page (free_pages_bulk top zone page order)
unfolding free_pages_bulk
free_pages_bulk-Freed top zone page order v le a room =
    let z2 = put_block (block top zone page order v le a room) in
    let valid = put-IsValid top zone page order v le a room in
    let covered = covers_more top zone page order v le a room in
    let all =
      reclaim-Reclaims top z2 ((area_at z2 top).nr_free - 1) [] valid
        (omega (arith, valid.listed.counts top)) in
    elim (Bool-cases (ltb (block top zone page order v le a room).order top)) [
      | inl below ↦ record {
        blocks = [];
        zone' = z2;
        runs = ground (arith, below);
        valid = valid;
        amount = omega (arith, pages_more top zone page order v le a room);
        covered = λ x. omega (arith, covered x);
      }
      | inr highest ↦ record {
        blocks = all.blocks;
        zone' = all.zone';
        runs = ground (arith, highest) ∙ all.runs;
        valid = all.valid;
        amount = omega (arith, all.weights pages, pages_more top zone page order v le a room);
        covered = λ x. omega (arith, all.weights (covers x), covered x);
      }
    ]
