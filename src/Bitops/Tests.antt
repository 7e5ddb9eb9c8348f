-- ===== src/Bitops/Tests.antt =====
-- Runs of include/skp/utils/bitops.h, and its theorems at them.
use skp.Common.{ℕ, ◌^◌, ◌≤◌, ◌≡◌, ◌↔◌, refl, arith, true, some, none}
use skp.Bitops.{fls, flsl, leading_zeros, is_power_of_2, roundup_pow_of_two, get_count_order}
use skp.Bitops.PowerOfTwo.{is_power_of_2_iff, roundup_pow_of_two_least}

roundup_runs : (roundup_pow_of_two 5 ≡ 8) × (roundup_pow_of_two 8 ≡ 8) × (roundup_pow_of_two 1 ≡ 1)
unfolding roundup_pow_of_two flsl leading_zeros
roundup_runs = (refl, refl, refl)

get_count_order_runs :
    (get_count_order 0 ≡ none) × (get_count_order 9 ≡ some 4) × (get_count_order 8 ≡ some 3)
unfolding get_count_order fls leading_zeros
get_count_order_runs = (refl, refl, refl)

is_power_of_2_iff_example : (is_power_of_2 12 ≡ true) ↔ ∥ ((k : ℕ) × (12 ≡ 2 ^ k)) ∥₁
is_power_of_2_iff_example = is_power_of_2_iff 12

roundup_pow_of_two_least_example :
    (k : ℕ) × (roundup_pow_of_two 100 ≡ 2 ^ k)
    × (100 ≤ roundup_pow_of_two 100)
    × (roundup_pow_of_two 100 ≤ 2 ^ 7)
roundup_pow_of_two_least_example =
    roundup_pow_of_two_least 100 7 (omega arith) (omega arith) (omega arith)
