-- ===== src/Dict/Rehash/Resize.antt =====
-- When src/adt/dict.c begins a rehash: the new size is a power of two, and the nodes stay.
use native.Mathlib.Nat.{pow-le-pow_right}
use skp.Common.{
  ℕ, zero, suc, ◌*◌, ◌/◌, ◌%◌, ◌^◌, ◌≤◌, ◌<◌, ◌≡◌, inl, inr, refl, ap, ◌∙◌, Bool, true, false, not,
  ◌&&◌, ◌||◌, Option, none, some, [], arith, ◌==◌, if◌then◌else◌, dec_lt,
}
use skp.Common.Bits.{pow_pos}
use skp.Common.Word.{u32_mod}
use skp.Dict.{Dict, DictTable, is_rehashing}
use skp.Dict.Table.Sound.{total}
use skp.Dict.Table.Fresh.{
  fresh, fresh-IsSound, total-fresh, dict_table_init-fresh, dict_table_init_failed, chain_at-fresh,
  total_nil, size-fresh,
}
use skp.Dict.Table.Weigh.{weigh_empty}
use skp.Dict.Rehash.{resized, resize_if_needed, larger, changed, expands, reduces}
use skp.Dict.Rehash.Progress.{IsValid, Idle, under_way}
use skp.Dict.Rehash.Weights.{Placements, SameNodes, SameNodes-refl}

-- a size of a table
abbrev pub IsSize : ℕ → Type 0
IsSize n = (k : ℕ) × (k ≤ 31) × (n ≡ 2 ^ k)

-- no new size, or one that a hash can be masked by
abbrev IsPlan : Option ℕ → Type 0
IsPlan none = Unit
IsPlan (some n) = IsSize n

IsPlan-if : (b : Bool) (x y : Option ℕ) → IsPlan x → IsPlan y → IsPlan (if b then x else y)
IsPlan-if true x y p q = p
IsPlan-if false x y p q = q

changed-IsPlan : (old size : ℕ) → IsSize size → IsPlan (changed old size)
changed-IsPlan old size s = IsPlan-if ((size == old) || (size == 0)) none (some size) tt s

-- doubling in 32 bits gives a larger power of two, or nothing
doubled : (old : ℕ) → IsSize old → IsSize (larger old ((2 * old) % u32_mod))
doubled old (k, le, e) = elim (dec_lt k 31) [
  | yes lt ↦
      let fits : 2 ^ suc k ≤ 2 ^ 31 =
        pow-le-pow_right {n = 2} (omega arith) {i = suc k} {j = 31} (omega arith) in
      (suc k, omega arith, ground (arith, e, fits, pow_pos k))
  | no ge ↦
      let top : k ≡ 31 = omega arith in
      let two : old ≡ 2 ^ 31 = e ∙ ap (◌^◌ 2) top in (31, omega arith, ground (arith, two))
]

halved : (init old : ℕ) → IsSize init → IsSize old → IsSize (larger init (old / 2))
halved init old (k, le, e) (zero, le', e') = (k, le, ground (arith, e, e', pow_pos k))
halved init old (k, le, e) (suc m, le', e') = elim (dec_lt init (old / 2)) [
  | yes lt ↦ (m, omega arith, ground (arith, lt, e'))
  | no ge ↦ (k, le, ground (arith, ge, e))
]

module _ {E : Type 0} where
  resized-IsPlan :
      (d : Dict E) (isexpand : Bool)
      → IsSize d.active.size
      → IsSize d.init_size
      → IsPlan (resized d isexpand)
  unfolding resized
  resized-IsPlan d isexpand size init =
      let old = d.active.size in
      let twice = changed old (larger old ((2 * old) % u32_mod)) in
      let half = changed old (larger d.init_size (old / 2)) in
      let reduce = if not isexpand && reduces d then half else none in
      let resize = if isexpand && expands d then twice else reduce in
      IsPlan-if ((d.active.nr_nodes == 0) || is_rehashing d) none resize tt (
        IsPlan-if (isexpand && expands d) twice reduce
          (changed-IsPlan old (larger old ((2 * old) % u32_mod)) (doubled old size))
          (IsPlan-if (not isexpand && reduces d) half none
            (changed-IsPlan old (larger d.init_size (old / 2)) (halved d.init_size old init size))
            tt))

  -- nothing is done while a rehash is under way
  busy : (d : Dict E) (isexpand : Bool) → is_rehashing d ≡ true → resized d isexpand ≡ none
  unfolding resized
  busy d isexpand h = rw (h, resized) (either (d.active.nr_nodes == 0) _)
    where
      either : (b : Bool) (x : Option ℕ) → (if b || true then none else x) ≡ none
      either true x = refl
      either false x = refl

  unplanned :
      (allocated : Bool) (d : Dict E) (isexpand : Bool)
      → resized d isexpand ≡ none
      → resize_if_needed allocated d isexpand ≡ (false, d)
  unfolding resize_if_needed
  unplanned allocated d isexpand e = rw (e, resize_if_needed) refl

  -- the dictionary with a new table, and the one in which there is no memory for it
  abbrev begun : Dict E → ℕ → Dict E
  begun d size = record d { rehash = fresh E size; rehashidx = some 0 }

  abbrev failed : Dict E → ℕ → Dict E
  failed d size = record d {
    rehash = record { nr_nodes = 0; size = size; bucket = []; mapping = [] };
  }

  planned :
      (allocated : Bool) (d : Dict E) (isexpand : Bool) (size : ℕ)
      → 0 < size
      → resized d isexpand ≡ some size
      → resize_if_needed allocated d isexpand
        ≡ (allocated, if allocated then begun d size else failed d size)
  unfolding resize_if_needed
  planned true d isexpand size pos e =
      rw (e, resize_if_needed)
        (ap
          (λ (r : Bool × DictTable E).
            (r.0, record d { rehash = r.1; rehashidx = if r.0 then some 0 else d.rehashidx }))
          (dict_table_init-fresh E size pos))
  planned false d isexpand size pos e =
      rw (e, resize_if_needed)
        (ap
          (λ (r : Bool × DictTable E).
            (r.0, record d { rehash = r.1; rehashidx = if r.0 then some 0 else d.rehashidx }))
          (dict_table_init_failed E size pos))

module _ {E : Type 0} (hash_of : E → ℕ) where
  -- A dictionary between calls.
  pub record Good (d : Dict E) : Type 0 where
    pub valid : IsValid d
    pub placed : Placements hash_of d
    pub init : IsSize d.init_size

  begun-Good : (d : Dict E) (size : ℕ) → Idle d → Good d → IsSize size → Good (begun d size)
  begun-Good d size v g (k, le, e) = record {
    valid = inr (
      0,
      record {
        is = refl;
        tables = record {
          active = v.active;
          other = fresh-IsSound E size;
          fits = omega (arith, v.active.fits, total-fresh E size);
          bits = k;
          bits_le = le;
          other_size = size-fresh E size ∙ e;
        };
        behind = λ i h. absurd (omega arith);
        from_le = omega arith;
      },
    );
    placed = record { active = g.placed.active; other = λ i. rw (chain_at-fresh E size i) tt };
    init = g.init;
  }

  failed-Good : (d : Dict E) (size : ℕ) → Idle d → Good d → Good (failed d size)
  failed-Good d size v g = record {
    valid = inl (record {
      is = v.is;
      active = v.active;
      bits = v.bits;
      bits_le = v.bits_le;
      size = v.size;
      other = refl;
    });
    placed = record { active = g.placed.active; other = λ i. tt };
    init = g.init;
  }

  -- the table that is not in use weighs nothing, before and after
  SameNodes-Idle :
      (d : Dict E) (t : DictTable E) (idx : Option ℕ)
      → Idle d
      → total t.bucket ≡ 0
      → SameNodes d (record d { rehash = t; rehashidx = idx })
  SameNodes-Idle d t idx v e = record {
    weights = λ w. omega (
      arith,
      weigh_empty w t.bucket e,
      weigh_empty w d.rehash.bucket (ap total v.other ∙ total_nil E),
    );
    same_init = refl;
  }

  planned-Good :
      (d : Dict E) (size : ℕ)
      → Idle d
      → Good d
      → IsSize size
      → (b : Bool) → Good (if b then begun d size else failed d size)
  planned-Good d size v g s true = begun-Good d size v g s
  planned-Good d size v g s false = failed-Good d size v g

  planned-SameNodes :
      (d : Dict E) (size : ℕ)
      → Idle d
      → (b : Bool) → SameNodes d (if b then begun d size else failed d size)
  planned-SameNodes d size v true = SameNodes-Idle d (fresh E size) (some 0) v (total-fresh E size)
  planned-SameNodes d size v false = SameNodes-Idle d _ d.rehashidx v (total_nil E)

  -- Whether or not the table is to be resized, and whether or not there is memory for it, the
  -- dictionary stays as good and keeps its nodes.
  pub resize_if_needed-Good :
      (allocated : Bool) (d : Dict E) (isexpand : Bool)
      → Good d
      → (d' : Dict E) × ((resize_if_needed allocated d isexpand).1 ≡ d') × Good d' × SameNodes d d'
  resize_if_needed-Good allocated d isexpand g = elim g.valid [
    | inr (from, v) ↦ (
      d,
      ap (λ (r : Bool × Dict E). r.1)
          (unplanned allocated d isexpand (busy d isexpand (under_way d v.is))),
      g,
      SameNodes-refl d,
    )
    | inl v ↦
        plan v (resized d isexpand) refl
          (resized-IsPlan d isexpand (v.bits, v.bits_le, v.size) g.init)
  ]
    where
      plan :
          Idle d
          → (o : Option ℕ) → resized d isexpand ≡ o
          → IsPlan o
          → (d' : Dict E) × ((resize_if_needed allocated d isexpand).1 ≡ d')
            × Good d'
            × SameNodes d d'
      plan v none e s = (
        d,
        ap (λ (r : Bool × Dict E). r.1) (unplanned allocated d isexpand e),
        g,
        SameNodes-refl d,
      )
      plan v (some size) e s =
          let pos : 0 < size = omega (arith, s.2, pow_pos s.0) in
          let good : (b : Bool) → Good (if b then begun d size else failed d size) =
            planned-Good d size v g s in
          let same : (b : Bool) → SameNodes d (if b then begun d size else failed d size) =
            planned-SameNodes d size v in
          (
            if allocated then begun d size else failed d size,
            ap (λ (r : Bool × Dict E). r.1) (planned allocated d isexpand size pos e),
            good allocated,
            same allocated,
          )
