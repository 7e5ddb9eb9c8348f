-- ===== src/String.antt =====
-- src/utils/string.c and include/skp/utils/string.h: the short strings and the reading of decimal numbers.
-- A text is the list of its bytes.
pub mod Decimal
pub mod Short
mod Tests
use skp.Common.{
  ℕ, zero, suc, ◌+◌, ◌-◌, ◌*◌, ◌%◌, ◌^◌, Bool, true, false, ◌||◌, not, ◌&&◌, Option, none, some,
  List, [], ◌∷◌, ◌++◌, ◌==◌, ltb, leb, if◌then◌else◌, length, take, replicate, drop,
}
use skp.Common.Int.{ℤ, pos, negsuc, is_zero}
use skp.Common.Word.{u32_mod}
use skp.Common.Text.{strlen, key_bytes}

abbrev pub u64_mod : ℕ
u64_mod = 2 ^ 64

-- `S64_MAX`
abbrev pub s64_max : ℕ
s64_max = 2 ^ 63 - 1

-- What `str2int` returns: 1 for a number with a sign, 0 for one without, or -EINVAL.
pub data Parsed : Type 0 where
  signed unsigned einval : Parsed

-- The loop of `str2int`: `v` and `ll` at the end, or `none` where a byte is no digit.
pub digits_loop : ℕ → ℕ → List ℕ → Option (ℕ × ℕ)
digits_loop v ll [] = some (v, ll)
digits_loop v ll (c ∷ cs) =
    let rest = digits_loop ((v * 10 + (c - 48)) % u64_mod) (suc ll) cs in
    if ltb c 48 || ltb 57 c then none else rest

-- `(int64_t)v`
abbrev pub to_s64 : ℕ → ℤ
to_s64 v = if leb v s64_max then pos v else negsuc (u64_mod - 1 - v)

-- `- (int64_t)v`, for a `v` below `S64_MAX`
abbrev pub negated : ℕ → ℤ
negated zero = pos 0
negated (suc v) = negsuc v

-- the sign, and the text behind it
abbrev pub is_signed : List ℕ → Bool
is_signed [] = false
is_signed (c ∷ cs) = c == 45

abbrev pub unsign : List ℕ → List ℕ
unsign [] = []
unsign (c ∷ cs) = if c == 45 then cs else c ∷ cs

-- what follows the loop
abbrev pub finish : Bool → Option (ℕ × ℕ) → Parsed × Option ℤ
finish isreg none = (einval, none)
finish true (some (v, ll)) =
    if leb s64_max v then (einval, none) else (if ll == 0 then einval else signed, some (negated v))
finish false (some (v, ll)) = (if ll == 0 then einval else unsigned, some (to_s64 v))

-- What is returned, and what is written to `*value`, if anything.
pub str2int : List ℕ → ℤ → Parsed × Option ℤ
str2int ptr l =
    let text = key_bytes ptr l in
    if is_zero l then (einval, none) else finish (is_signed text) (digits_loop 0 0 (unsign text))

-- `struct sstr`: eight bytes in place, a pointer to bytes elsewhere, with the eight bytes of the
-- pointer itself, or a null pointer.
pub data Storage : Type 0 where
  in_place : List ℕ → Storage
  at_data : List ℕ → List ℕ → Storage
  null : Storage

pub record Sstr : Type 0 where
  pub storage : Storage
  pub len : ℕ

pub sstr_init : Sstr
sstr_init = record { storage = null; len = 0 }

-- the eight bytes of the union
abbrev pub union_bytes : Storage → List ℕ
union_bytes (in_place bytes) = bytes
union_bytes (at_data pointer bytes) = pointer
union_bytes null = replicate 8 0

-- `sstr->len + 1 > sizeof(sstr->_data)`, on 32 bits
abbrev pub is_far : ℕ → Bool
is_far len = ltb 8 ((len + 1) % u32_mod)

-- `malloc` gives the bytes of a pointer, or nothing. The result is 0, or -ENOMEM for `false`; there is
-- none where the terminated text does not fit in where it is written.
pub sstr_build : Option (List ℕ) → Sstr → List ℕ → ℤ → Option (Bool × Sstr)
sstr_build allocated sstr str l =
    let text = key_bytes str l in
    let ended = text ++ (0 ∷ []) in
    let len = length text % u32_mod in
    let near = ended ++ drop (length ended) (union_bytes sstr.storage) in
    if ltb 8 (length text + 1)
    then elim allocated [
      | none ↦ some (false, record sstr { storage = null })
      | some pointer ↦
          if is_far len
          then some (true, record { storage = at_data pointer ended; len = len })
          else none
    ]
    else some (true, record { storage = in_place near; len = len })

-- the bytes that `deref_sstr` points at, or `none` where it is no valid pointer
pub deref_sstr : Sstr → Option (List ℕ)
deref_sstr sstr = if is_far sstr.len then target sstr.storage else some (union_bytes sstr.storage)
  where
    target : Storage → Option (List ℕ)
    target (in_place bytes) = none
    target (at_data pointer bytes) = some bytes
    target null = none

-- `memcmp` of the first bytes, as a test for equality
abbrev pub same_bytes : ℕ → List ℕ → List ℕ → Bool
same_bytes zero s t = true
same_bytes (suc n) [] t = false
same_bytes (suc n) (x ∷ s) [] = false
same_bytes (suc n) (x ∷ s) (y ∷ t) = let rest = same_bytes n s t in if x == y then rest else false

pub sstr_equal : Sstr → Sstr → Option Bool
sstr_equal ss1 ss2 = if not (ss1.len == ss2.len) then some false else elim (deref_sstr ss1) [
  | none ↦ none
  | some s1 ↦ elim (deref_sstr ss2) [ none ↦ none | some s2 ↦ some (same_bytes ss1.len s1 s2) ]
]
