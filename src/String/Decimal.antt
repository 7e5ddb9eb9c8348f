-- ===== src/String/Decimal.antt =====
-- `str2int` of src/utils/string.c against the numbers that the texts are written for.
use skp.Common.{
  ℕ, zero, suc, ◌+◌, ◌-◌, ◌*◌, ◌/◌, ◌%◌, ◌≤◌, ◌<◌, ◌≡◌, refl, ap, ◌∙◌, Bool, true, false, Option,
  none, some, List, [], ◌∷◌, ◌++◌, ltb, if◌then◌else◌, ◌||◌, length, length-append, dec_lt, take,
  arith,
}
use skp.Common.Int.{ℤ, pos, negsuc}
use skp.String.{
  u64_mod, s64_max, Parsed, signed, unsigned, einval, digits_loop, negated, is_signed, unsign,
  finish, str2int,
}

-- decimal digits
pub data AreDigits : List ℕ → Type 0 where
  no_digits : AreDigits []
  a_digit : {c : ℕ} {cs : List ℕ} → 48 ≤ c → c ≤ 57 → AreDigits cs → AreDigits (c ∷ cs)

-- The number that digits write, behind a number.
abbrev pub number_from : ℕ → List ℕ → ℕ
number_from v [] = v
number_from v (c ∷ cs) = number_from (v * 10 + (c - 48)) cs

number_from-le : (cs : List ℕ) (v : ℕ) → v ≤ number_from v cs
number_from-le [] v = omega arith
number_from-le (c ∷ cs) v = omega (arith, number_from-le cs (v * 10 + (c - 48)))

digits_loop_step :
    (v ll c : ℕ) (cs : List ℕ)
    → 48 ≤ c
    → c ≤ 57
    → v * 10 + (c - 48) < u64_mod
    → digits_loop v ll (c ∷ cs) ≡ digits_loop (v * 10 + (c - 48)) (suc ll) cs
unfolding digits_loop
digits_loop_step v ll c cs lo hi fits =
    let kept : (v * 10 + (c - 48)) % u64_mod ≡ v * 10 + (c - 48) = omega arith in
    ground (arith, lo, hi) ∙ ap (λ n. digits_loop n (suc ll) cs) kept

-- On digits of a number that fits, the loop computes it.
digits_loop-number_from :
    (cs : List ℕ) (v ll : ℕ)
    → AreDigits cs
    → number_from v cs < u64_mod
    → digits_loop v ll cs ≡ some (number_from v cs, ll + length cs)
unfolding digits_loop
digits_loop-number_from [] v ll no_digits fits =
    let none_more : ll ≡ ll + 0 = omega arith in ap (λ n. some (v, n)) none_more
digits_loop-number_from (c ∷ cs) v ll (a_digit lo hi ds) fits =
    let more : suc ll + length cs ≡ ll + suc (length cs) = omega arith in
    digits_loop_step v ll c cs lo hi (omega (arith, number_from-le cs (v * 10 + (c - 48)), fits))
    ∙ digits_loop-number_from cs (v * 10 + (c - 48)) (suc ll) ds fits
    ∙ ap (λ n. some (number_from v (c ∷ cs), n)) more

-- A byte that is no digit ends the loop, wherever it stands.
digits_loop_stops :
    (ds cs : List ℕ) (c v ll : ℕ)
    → (ltb c 48 || ltb 57 c) ≡ true
    → digits_loop v ll (ds ++ (c ∷ cs)) ≡ none
unfolding digits_loop
digits_loop_stops [] cs c v ll bad = rw bad refl
digits_loop_stops (d ∷ ds) cs c v ll bad =
    ap (λ (o : Option (ℕ × ℕ)). if ltb d 48 || ltb 57 d then none else o)
      (digits_loop_stops ds cs c ((v * 10 + (d - 48)) % u64_mod) (suc ll) bad)
    ∙ either (ltb d 48 || ltb 57 d)
  where
    either : (b : Bool) → ◌≡◌ {A = Option (ℕ × ℕ)} (if b then none else none) none
    either true = refl
    either false = refl

take_all : (cs : List ℕ) → take (length cs) cs ≡ cs
take_all [] = refl
take_all (c ∷ cs) = ap (λ t. c ∷ t) (take_all cs)

-- digits behind a '-', or alone
abbrev pub written : Bool → List ℕ → List ℕ
written true ds = 45 ∷ ds
written false ds = ds

abbrev pub result : Bool → ℕ → Parsed × Option ℤ
result true v = (signed, some (negated v))
result false v = (unsigned, some (pos v))

unsigned_lem : (ds : List ℕ) → is_signed ds ≡ false → unsign ds ≡ ds
unsigned_lem [] e = refl
unsigned_lem (c ∷ cs) e = rw e refl

-- the call on a text that has something behind its sign
behind_sign :
    (negative : Bool) (ds : List ℕ)
    → is_signed ds ≡ false
    → 0 < length ds
    → str2int (written negative ds) (pos (length (written negative ds)))
      ≡ finish negative (digits_loop 0 0 ds)
unfolding str2int
behind_sign true ds e some_byte = ap (λ t. finish true (digits_loop 0 0 t)) (take_all ds)
behind_sign false [] e some_byte = absurd (omega (arith, some_byte))
behind_sign false (c ∷ cs) e some_byte =
    ap (λ t. finish (is_signed (c ∷ t)) (digits_loop 0 0 (unsign (c ∷ t)))) (take_all cs)
    ∙ ap (λ b. finish b (digits_loop 0 0 (unsign (c ∷ cs)))) e
    ∙ ap (λ t. finish false (digits_loop 0 0 t)) (unsigned_lem (c ∷ cs) e)

digits_signed : (ds : List ℕ) → AreDigits ds → is_signed ds ≡ false
digits_signed [] no_digits = refl
digits_signed (c ∷ cs) (a_digit lo hi rest) = ground (arith, lo)

-- the call on digits of a number of 64 bits
on_digits :
    (negative : Bool) (ds : List ℕ)
    → AreDigits ds
    → 0 < length ds
    → number_from 0 ds < u64_mod
    → str2int (written negative ds) (pos (length (written negative ds)))
      ≡ finish negative (some (number_from 0 ds, length ds))
on_digits negative ds a some_digit fits =
    let counted : 0 + length ds ≡ length ds = omega arith in
    behind_sign negative ds (digits_signed ds a) some_digit
    ∙ ap (finish negative)
        (digits_loop-number_from ds 0 0 a fits ∙ ap (λ n. some (number_from 0 ds, n)) counted)

finish_lem :
    (negative : Bool) (v n : ℕ)
    → v < s64_max
    → 0 < n
    → finish negative (some (v, n)) ≡ result negative v
finish_lem true v zero p q = absurd (omega (arith, q))
finish_lem true v (suc n) p q = ground (arith, p)
finish_lem false v zero p q = absurd (omega (arith, q))
finish_lem false v (suc n) p q = ground (arith, p)

-- `str2int` of the digits of a number below S64_MAX, alone or behind a '-', is that number, with its
-- sign.
pub str2int-number_from :
    (negative : Bool) (ds : List ℕ)
    → AreDigits ds
    → 0 < length ds
    → number_from 0 ds < s64_max
    → str2int (written negative ds) (pos (length (written negative ds)))
      ≡ result negative (number_from 0 ds)
str2int-number_from negative ds a some_digit fits =
    on_digits negative ds a some_digit (omega (arith, fits))
    ∙ finish_lem negative (number_from 0 ds) (length ds) fits some_digit

-- The decimal digits of a number, in front of others: `fuel` is enough when it is not below the number.
pub decimal_onto : ℕ → ℕ → List ℕ → List ℕ
decimal_onto zero n rest = (48 + n % 10) ∷ rest
decimal_onto (suc fuel) n rest = elim (ltb n 10) [
  | true ↦ (48 + n % 10) ∷ rest
  | false ↦ decimal_onto fuel (n / 10) ((48 + n % 10) ∷ rest)
]

abbrev pub decimal : ℕ → List ℕ
decimal n = decimal_onto n n []

decimal_onto-AreDigits :
    (fuel n : ℕ) (rest : List ℕ) → AreDigits rest → AreDigits (decimal_onto fuel n rest)
unfolding decimal_onto
decimal_onto-AreDigits zero n rest a = a_digit (omega arith) (omega arith) a
decimal_onto-AreDigits (suc fuel) n rest a =
    either (ltb n 10) (a_digit (omega arith) (omega arith) a) (
      decimal_onto-AreDigits fuel (n / 10) ((48 + n % 10) ∷ rest)
        (a_digit (omega arith) (omega arith) a))
  where
    either :
        (b : Bool) {s t : List ℕ}
        → AreDigits s
        → AreDigits t
        → AreDigits (elim b [ true ↦ s | false ↦ t ])
    either true p q = p
    either false p q = q

length-decimal_onto : (fuel n : ℕ) (rest : List ℕ) → 0 < length (decimal_onto fuel n rest)
unfolding decimal_onto
length-decimal_onto zero n rest = omega arith
length-decimal_onto (suc fuel) n rest =
    ground (arith, length-decimal_onto fuel (n / 10) ((48 + n % 10) ∷ rest))

number_from-decimal_onto :
    (fuel n : ℕ) (rest : List ℕ)
    → n ≤ fuel
    → number_from 0 (decimal_onto fuel n rest) ≡ number_from n rest
unfolding decimal_onto
number_from-decimal_onto zero n rest p =
    let last : 0 * 10 + (48 + n % 10 - 48) ≡ n = omega arith in ap (λ v. number_from v rest) last
number_from-decimal_onto (suc fuel) n rest p = elim (dec_lt n 10) [
  | yes lt ↦
      let last : 0 * 10 + (48 + n % 10 - 48) ≡ n = omega arith in
      let here : decimal_onto (suc fuel) n rest ≡ (48 + n % 10) ∷ rest = ground (arith, lt) in
      ap (number_from 0) here ∙ ap (λ v. number_from v rest) last
  | no ge ↦
      let split : n / 10 * 10 + (48 + n % 10 - 48) ≡ n = omega arith in
      let more : decimal_onto (suc fuel) n rest
          ≡ decimal_onto fuel (n / 10) ((48 + n % 10) ∷ rest) =
        ground (arith, ge) in
      ap (number_from 0) more
      ∙ number_from-decimal_onto fuel (n / 10) ((48 + n % 10) ∷ rest) (omega (arith, ge, p))
      ∙ ap (λ v. number_from v rest) split
]

-- `str2int` reads back the decimal text of each number below S64_MAX, and of its negation.
pub str2int-decimal :
    (negative : Bool) (n : ℕ)
    → n < s64_max
    → str2int (written negative (decimal n)) (pos (length (written negative (decimal n))))
      ≡ result negative n
str2int-decimal negative n fits =
    let same : number_from 0 (decimal n) ≡ n = number_from-decimal_onto n n [] (omega arith) in
    str2int-number_from negative (decimal n) (decimal_onto-AreDigits n n [] no_digits)
      (length-decimal_onto n n []) (omega (arith, same, fits))
    ∙ ap (result negative) same

-- A text in which a byte stands that is no digit is refused, with or without a '-' in front, and nothing
-- is written; a '-' at the front of the text itself is no such byte.
pub str2int_refuses :
    (negative : Bool) (ds cs : List ℕ) (c : ℕ)
    → (ltb c 48 || ltb 57 c) ≡ true
    → is_signed (ds ++ (c ∷ cs)) ≡ false
    → str2int (written negative (ds ++ (c ∷ cs))) (pos (length (written negative (ds ++ (c ∷ cs)))))
      ≡ (einval, none)
str2int_refuses negative ds cs c bad plain =
    behind_sign negative (ds ++ (c ∷ cs)) plain (omega (arith, length-append ds (c ∷ cs)))
    ∙ ap (finish negative) (digits_loop_stops ds cs c 0 0 bad)
    ∙ nothing negative
  where
    nothing : (b : Bool) → finish b none ≡ (einval, none)
    nothing true = refl
    nothing false = refl

-- A '-' in front of a number of 64 bits that is not below S64_MAX is refused, and nothing is written.
str2int_too_low :
    (n : ℕ)
    → s64_max ≤ n
    → n < u64_mod
    → str2int (written true (decimal n)) (pos (length (written true (decimal n)))) ≡ (einval, none)
str2int_too_low n big fits =
    let same : number_from 0 (decimal n) ≡ n = number_from-decimal_onto n n [] (omega arith) in
    on_digits true (decimal n) (decimal_onto-AreDigits n n [] no_digits)
      (length-decimal_onto n n []) (omega (arith, same, fits))
    ∙ ap (λ v. finish true (some (v, length (decimal n)))) same
    ∙ ground (arith, big)

-- A number from 2 ^ 63 to 2 ^ 64 - 1, without a sign, is not refused: `str2int` returns 0 and writes the negative
-- number with the same 64 bits.
pub str2int_wraps :
    (n : ℕ)
    → s64_max < n
    → n < u64_mod
    → str2int (decimal n) (pos (length (decimal n))) ≡ (unsigned, some (negsuc (u64_mod - 1 - n)))
str2int_wraps n big fits =
    let same : number_from 0 (decimal n) ≡ n = number_from-decimal_onto n n [] (omega arith) in
    on_digits false (decimal n) (decimal_onto-AreDigits n n [] no_digits)
      (length-decimal_onto n n []) (omega (arith, same, fits))
    ∙ ap (λ v. finish false (some (v, length (decimal n)))) same
    ∙ ground (arith, big, length-decimal_onto n n [])
