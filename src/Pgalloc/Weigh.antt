-- ===== src/Pgalloc/Weigh.antt =====
-- The free blocks of src/mm/pgalloc.c as a multiset of orders and pages, compared by sums of weights, and what
-- holds of them between calls.
use native.Mathlib.Nat.{pow-suc}
use skp.Common.{
  ℕ, zero, suc, ◌+◌, ◌*◌, ◌^◌, ◌≤◌, ◌<◌, ◌≡◌, ◌≢◌, ◌⊎◌, inl, inr, refl, sym, ap, ◌∙◌, Bool, true,
  false, not, ◌&&◌, Option, some, List, [], ◌∷◌, ◌++◌, ◌==◌, ltb, leb, if◌then◌else◌, get_or, set,
  get_or-set, length, length-set, arith, ℕ_discrete,
}
use skp.Common.Word.{u32_mod}
use skp.Pgalloc.{FreeArea, no_area, Zone, area_at, store_area, del_page}

pub List-cases : (l : List ℕ) → (l ≡ []) ⊎ ((p : ℕ) × (ps : List ℕ) × (l ≡ p ∷ ps))
List-cases [] = inl refl
List-cases (p ∷ ps) = inr (p, ps, refl)

abbrev pub weigh_list : (ℕ → ℕ → ℕ) → ℕ → List ℕ → ℕ
weigh_list w k [] = 0
weigh_list w k (p ∷ ps) = w k p + weigh_list w k ps

-- the sum over the lists of the orders from `k` on
unfoldable pub weigh_from : (ℕ → ℕ → ℕ) → ℕ → List FreeArea → ℕ
weigh_from w k [] = 0
weigh_from w k (a ∷ areas) = weigh_list w k a.free_list + weigh_from w (suc k) areas

abbrev pub weigh : (ℕ → ℕ → ℕ) → Zone → ℕ
weigh w zone = weigh_from w 0 zone.free_area

weigh_from-set :
    (w : ℕ → ℕ → ℕ) (areas : List FreeArea) (i k j : ℕ) (a : FreeArea)
    → k + i ≡ j
    → i < length areas
    → weigh_from w k (set areas i a) + weigh_list w j (get_or areas i no_area).free_list
      ≡ weigh_from w k areas + weigh_list w j a.free_list
unfolding weigh_from
weigh_from-set w [] i k j a e h = absurd (omega arith)
weigh_from-set w (b ∷ areas) zero k j a e h =
    let same : k ≡ j = omega arith in
    omega
      (arith, ap (λ n. weigh_list w n a.free_list) same, ap (λ n. weigh_list w n b.free_list) same)
weigh_from-set w (b ∷ areas) (suc i) k j a e h =
    omega (arith, weigh_from-set w areas i (suc k) j a (omega arith) (omega arith))

pub weigh-store :
    (w : ℕ → ℕ → ℕ) (zone : Zone) (k : ℕ) (a : FreeArea)
    → k < length zone.free_area
    → weigh w (store_area zone k a) + weigh_list w k (area_at zone k).free_list
      ≡ weigh w zone + weigh_list w k a.free_list
weigh-store w zone k a h = weigh_from-set w zone.free_area k 0 k a (omega arith) h

pub weigh_list-append :
    (w : ℕ → ℕ → ℕ) (k : ℕ) (s t : List ℕ)
    → weigh_list w k (s ++ t) ≡ weigh_list w k s + weigh_list w k t
weigh_list-append w k [] t = omega arith
weigh_list-append w k (p ∷ s) t = omega (arith, weigh_list-append w k s t)

-- whether a list has a page
abbrev pub contains : ℕ → List ℕ → Bool
contains p [] = false
contains p (q ∷ qs) = let rest = contains p qs in if q == p then true else rest

pub weigh_list-del_page :
    (w : ℕ → ℕ → ℕ) (k p : ℕ) (ps : List ℕ)
    → contains p ps ≡ true
    → weigh_list w k (del_page ps p) + w k p ≡ weigh_list w k ps
weigh_list-del_page w k p [] h = cc
weigh_list-del_page w k p (q ∷ ps) h = elim (ℕ_discrete q p) [
  | yes e ↦ ground (arith, ap (w k) e, e)
  | no ne ↦ ground (arith, h, ne, weigh_list-del_page w k p ps)
]

pub length-del_page :
    (p : ℕ) (ps : List ℕ) → contains p ps ≡ true → suc (length (del_page ps p)) ≡ length ps
length-del_page p [] h = cc
length-del_page p (q ∷ ps) h = ground (arith, h, length-del_page p ps)

pub contains-append_left : (p : ℕ) (s t : List ℕ) → contains p s ≡ true → contains p (s ++ t) ≡ true
contains-append_left p [] t h = cc
contains-append_left p (q ∷ s) t h = ground (arith, h, contains-append_left p s t)

pub contains-append_right :
    (p : ℕ) (s t : List ℕ) → contains p t ≡ true → contains p (s ++ t) ≡ true
contains-append_right p [] t h = h
contains-append_right p (q ∷ s) t h = ground (arith, h, contains-append_right p s t h)

pub contains-del_page :
    (p q : ℕ) (ps : List ℕ) → p ≢ q → contains p ps ≡ true → contains p (del_page ps q) ≡ true
contains-del_page p q [] ne h = cc
contains-del_page p q (r ∷ ps) ne h = ground (arith, ne, h, contains-del_page p q ps ne)

-- A block of 2 ^ k pages begins at a multiple of 2 ^ k.
abbrev pub IsAligned : ℕ → ℕ → Type 0
IsAligned k p = (m : ℕ) × (p ≡ m * 2 ^ k)

abbrev pub AllAligned : ℕ → List ℕ → Type 0
AllAligned k [] = Unit
AllAligned k (p ∷ ps) = IsAligned k p × AllAligned k ps

pub AllAligned-append :
    (k : ℕ) (s t : List ℕ) → AllAligned k s → AllAligned k t → AllAligned k (s ++ t)
AllAligned-append k [] t a b = b
AllAligned-append k (p ∷ s) t (h, a) b = (h, AllAligned-append k s t a b)

pub AllAligned-del_page : (k p : ℕ) (ps : List ℕ) → AllAligned k ps → AllAligned k (del_page ps p)
AllAligned-del_page k p [] a = tt
AllAligned-del_page k p (q ∷ ps) (h, a) =
    either (q == p) ps (q ∷ del_page ps p) a (h, AllAligned-del_page k p ps a)
  where
    either :
        (b : Bool) (s t : List ℕ)
        → AllAligned k s
        → AllAligned k t
        → AllAligned k (if b then s else t)
    either true s t x y = x
    either false s t x y = y

-- A weight that a block has twice when it is split in halves, and once when they are one.
abbrev pub Additive : (ℕ → ℕ → ℕ) → Type 0
Additive w = (k p : ℕ) → w (suc k) p ≡ w k p + w k (p + 2 ^ k)

-- the number of pages, and whether a page is in the block
abbrev pub pages : ℕ → ℕ → ℕ
pages k p = 2 ^ k

abbrev pub covers : ℕ → ℕ → ℕ → ℕ
covers x k p = if leb p x && ltb x (p + 2 ^ k) then 1 else 0

pub pages-Additive : Additive pages
pages-Additive k p = omega (arith, pow-suc 2 k)

pub covers-Additive : (x : ℕ) → Additive (covers x)
covers-Additive x k p = ground (arith, pow-suc 2 k)

-- a multiple of 2 ^ (k + 1)
pub even_lem : (m k : ℕ) → m * 2 ^ suc k ≡ m * 2 * 2 ^ k
even_lem m k = grind (arith, pow-suc 2 k)

pub second_half : (m k : ℕ) → m * 2 ^ suc k + 2 ^ k ≡ (m * 2 + 1) * 2 ^ k
second_half m k = grind (arith, pow-suc 2 k)

-- What holds of the lists and the counters: `top` is the highest order.
pub record IsListed (top : ℕ) (zone : Zone) : Type 0 where
  pub orders : length zone.free_area ≡ suc top
  pub counts : (k : ℕ) → (area_at zone k).nr_free ≡ length (area_at zone k).free_list
  pub aligned : (k : ℕ) → AllAligned k (area_at zone k).free_list
  pub marked :
      (p k : ℕ)
      → zone.page_order p ≡ some k
      → k < top
      → contains p (area_at zone k).free_list ≡ true

area_at-store :
    (zone : Zone) (k j : ℕ) (a : FreeArea)
    → k < length zone.free_area
    → area_at (store_area zone k a) j ≡ (if k == j then a else area_at zone j)
area_at-store zone k j a h = get_or-set zone.free_area k j a no_area h

pub area_at_same :
    (zone : Zone) (k : ℕ) (a : FreeArea)
    → k < length zone.free_area
    → area_at (store_area zone k a) k ≡ a
area_at_same zone k a h = area_at-store zone k k a h ∙ ground arith

pub area_at_other :
    (zone : Zone) (k j : ℕ) (a : FreeArea)
    → k < length zone.free_area
    → k ≢ j
    → area_at (store_area zone k a) j ≡ area_at zone j
area_at_other zone k j a h ne = area_at-store zone k j a h ∙ ground (arith, ne)

-- A list that is replaced, with marks that agree.
pub store-IsListed :
    (top : ℕ) (zone : Zone) (k : ℕ) (a : FreeArea) (orders : ℕ → Option ℕ)
    → IsListed top zone
    → k ≤ top
    → a.nr_free ≡ length a.free_list
    → AllAligned k a.free_list
    → ((p j : ℕ)
        → orders p ≡ some j
        → j < top
        → (if k == j then contains p a.free_list else contains p (area_at zone j).free_list) ≡ true)
    → IsListed top (store_area (record zone { page_order = orders }) k a)
store-IsListed top zone k a orders v le counted aligned marked =
    let h : k < length zone.free_area = omega (arith, v.orders, le) in
    let same = area_at_same zone k a h in
    record {
      orders = length-set zone.free_area k a ∙ v.orders;
      counts = λ j. elim (ℕ_discrete k j) [
        | yes e ↦ rw (ap (area_at (store_area zone k a)) (sym e) ∙ same) counted
        | no ne ↦ rw (area_at_other zone k j a h ne) (v.counts j)
      ];
      aligned = λ j. elim (ℕ_discrete k j) [
        | yes e ↦ rw (ap (area_at (store_area zone k a)) (sym e) ∙ same) (rw (sym e) aligned)
        | no ne ↦ rw (area_at_other zone k j a h ne) (v.aligned j)
      ];
      marked = λ p j o lt. elim (ℕ_discrete k j) [
        | yes e ↦
            rw (ap (area_at (store_area zone k a)) (sym e) ∙ same)
              (ground (arith, marked p j o lt, e))
        | no ne ↦ rw (area_at_other zone k j a h ne) (ground (arith, marked p j o lt, ne))
      ];
    }

-- What holds of a zone between calls.
pub record IsValid (top : ℕ) (zone : Zone) : Type 0 where
  pub listed : IsListed top zone
  pub total : zone.free_pages ≡ weigh pages zone
  pub room : weigh pages zone < u32_mod
  pub bit : zone.has_free ≡ not (zone.free_pages == 0)
