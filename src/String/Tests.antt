-- ===== src/String/Tests.antt =====
-- The theorems on src/utils/string.c at some texts.
use skp.Common.{ℕ, ◌-◌, ◌^◌, ◌≡◌, ◌↔◌, refl, true, false, none, some, List, [], ◌∷◌, arith, length}
use skp.Common.Int.{pos, negsuc}
use skp.String.{
  signed, unsigned, einval, str2int, Sstr, in_place, sstr_build, sstr_equal, sstr_init, deref_sstr,
}
use skp.String.Decimal.{
  no_digits, a_digit, decimal, str2int-number_from, str2int-decimal, str2int_refuses, str2int_wraps,
}
use skp.String.Short.{Holds, sstr_build-Holds, sstr_equal_iff}

-- "042"
abbrev text : List ℕ
text = 48 ∷ 52 ∷ 50 ∷ []

str2int-number_from_example : str2int (45 ∷ text) (pos 4) ≡ (signed, some (negsuc 41))
str2int-number_from_example =
    str2int-number_from true text
      (a_digit (omega arith) (omega arith)
        (a_digit (omega arith) (omega arith) (a_digit (omega arith) (omega arith) no_digits)))
      (omega arith) (omega arith)

str2int-decimal_example :
    str2int (decimal 1234) (pos (length (decimal 1234))) ≡ (unsigned, some (pos 1234))
str2int-decimal_example = str2int-decimal false 1234 (omega arith)

str2int_refuses_example : str2int (52 ∷ 120 ∷ 50 ∷ []) (pos 3) ≡ (einval, none)
str2int_refuses_example = str2int_refuses false (52 ∷ []) (50 ∷ []) 120 refl refl

str2int_wraps_example :
    str2int (decimal (2 ^ 63)) (pos (length (decimal (2 ^ 63))))
    ≡ (unsigned, some (negsuc (2 ^ 64 - 1 - 2 ^ 63)))
str2int_wraps_example = str2int_wraps (2 ^ 63) (omega arith) (omega arith)

-- "longtext!", which does not fit in place
abbrev long : List ℕ
long = 108 ∷ 111 ∷ 110 ∷ 103 ∷ 116 ∷ 101 ∷ 120 ∷ 116 ∷ 33 ∷ []

abbrev pointer : List ℕ
pointer = 1 ∷ 2 ∷ 3 ∷ 4 ∷ 5 ∷ 6 ∷ 7 ∷ 8 ∷ []

sstr_build-Holds_example :
    (s : Sstr) × (sstr_build (some pointer) sstr_init long (negsuc 0) ≡ some (true, s))
    × Holds s long
sstr_build-Holds_example = sstr_build-Holds pointer sstr_init long (negsuc 0) (omega arith)

abbrev in_eight : Sstr
in_eight = record { storage = in_place (48 ∷ 52 ∷ 50 ∷ 0 ∷ 9 ∷ 9 ∷ 9 ∷ 9 ∷ []); len = 3 }

in_eight-Holds : Holds in_eight text
unfolding deref_sstr
in_eight-Holds = record { more = 9 ∷ 9 ∷ 9 ∷ 9 ∷ []; length = refl; bytes = refl }

sstr_equal_iff_example : (sstr_equal in_eight in_eight ≡ some true) ↔ (text ≡ text)
sstr_equal_iff_example = sstr_equal_iff in_eight in_eight text text in_eight-Holds in_eight-Holds
