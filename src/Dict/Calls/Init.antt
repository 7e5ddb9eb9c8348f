-- ===== src/Dict/Calls/Init.antt =====
-- `dict_init` of src/adt/dict.c.
use native.Mathlib.Nat.{pow-le-pow_right}
use skp.Common.{
  ℕ, ◌%◌, ◌^◌, ◌≤◌, ◌<◌, ◌≡◌, inl, refl, ap, ◌∙◌, Bool, true, false, Option, none, some, arith, leb,
  if◌then◌else◌,
}
use skp.Common.Bits.{pow_pos}
use skp.Common.Word.{u32_mod}
use skp.Bitops.{roundup_pow_of_two}
use skp.Bitops.PowerOfTwo.{roundup_exponent}
use skp.Dict.{Dict, DictTable, DictAttr}
use skp.Dict.Table.{dict_table_init}
use skp.Dict.Table.Sound.{total}
use skp.Dict.Table.Fresh.{
  fresh, fresh-IsSound, total-fresh, dict_table_init-fresh, chain_at-fresh, released, total_nil,
  size-fresh,
}
use skp.Dict.Rehash.Keeps.{whole}
use skp.Dict.Rehash.Resize.{Good}
use skp.Dict.Calls.{InitStatus, ok, dict_init, given}

module _ {E : Type 0} (hash_of : E → ℕ) (attr : DictAttr) where
  abbrev size : ℕ
  size = roundup_pow_of_two (given attr.init_size 128) % u32_mod

  abbrev made : Bool × DictTable E → Option (InitStatus × Dict E)
  made (done, table) = some (
    if done then ok else InitStatus.enomem,
    record {
      rehashidx = none;
      expand_ratio = given attr.expand_ratio 8;
      reduce_ratio = given attr.reduce_ratio 2;
      init_size = size;
      active = table;
      rehash = (dict_table_init true 0).1;
      which = false;
    },
  )

  abbrev begun : Dict E
  begun = record {
    rehashidx = none;
    expand_ratio = given attr.expand_ratio 8;
    reduce_ratio = given attr.reduce_ratio 2;
    init_size = size;
    active = fresh E size;
    rehash = (dict_table_init true 0).1;
    which = false;
  }

  makes :
      given attr.reduce_ratio 2 < given attr.expand_ratio 8
      → dict_init true attr ≡ made (dict_table_init true size)
  unfolding dict_init
  makes lt =
      let wide : leb (given attr.expand_ratio 8) (given attr.reduce_ratio 2) ≡ false =
        ground (arith, lt) in
      ap (λ b. if b then none else made (dict_table_init true size)) wide

  -- With memory for the table, ratios in order and at most 2 ^ 31 chains, `dict_init` makes an empty
  -- dictionary that is between calls.
  pub dict_init-Good :
      given attr.reduce_ratio 2 < given attr.expand_ratio 8
      → given attr.init_size 128 ≤ 2 ^ 31
      → (d : Dict E) × (dict_init true attr ≡ some (ok, d)) × Good hash_of d × (whole d ≡ 0)
  dict_init-Good lt small =
      let some_size : 0 < given attr.init_size 128 = ground arith in
      let (k, _, exact, _, least) =
        roundup_exponent (given attr.init_size 128) some_size (omega (arith, small)) in
      let le : k ≤ 31 = least 31 small in
      let below : 2 ^ k ≤ 2 ^ 31 = pow-le-pow_right {n = 2} (omega arith) {i = k} {j = 31} le in
      let sized : size ≡ 2 ^ k = omega (arith, exact, below) in
      let pos : 0 < size = omega (arith, sized, pow_pos k) in
      (
        begun,
        makes lt ∙ ap made (dict_table_init-fresh E size pos),
        record {
          valid = inl (record {
            is = refl;
            active = fresh-IsSound E size;
            bits = k;
            bits_le = le;
            size = size-fresh E size ∙ sized;
            other = released E;
          });
          placed = record {
            active = λ i. rw (chain_at-fresh E size i) tt;
            other = λ i. rw (released E) tt;
          };
          init = (k, le, sized);
        },
        omega (arith, total-fresh E size, ap total (released E), total_nil E),
      )
