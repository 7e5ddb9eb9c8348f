-- ===== src/String/Short.antt =====
-- `sstr_build`, `deref_sstr` and `sstr_equal` of src/utils/string.c and include/skp/utils/string.h.
use mathlib.Core.Path.{ap₂}
use mathlib.Core.Bool.{true≢false}
use mathlib.Core.Option.{some-injective}
use skp.Common.{
  ◌↔◌, ◌≢◌, ℕ_discrete, ℕ, ◌-◌, ◌%◌, ◌≤◌, ◌<◌, ◌≡◌, refl, sym, ap, ◌∙◌, Bool, true, false, Option,
  none, some, List, [], ◌∷◌, ◌++◌, length, drop, dec_lt, arith,
}
use skp.Common.Int.{ℤ}
use skp.Common.Text.{key_bytes}
use skp.Common.Word.{u32_mod}
use skp.String.{
  in_place, at_data, Sstr, union_bytes, sstr_build, deref_sstr, same_bytes, sstr_equal,
}

-- A string that holds a text: its length, and where it points at the text with its 0, and more.
pub record Holds (sstr : Sstr) (text : List ℕ) : Type 0 where
  pub more : List ℕ
  pub length : sstr.len ≡ length text
  pub bytes : deref_sstr sstr ≡ some (text ++ (0 ∷ more))

append_zero : (s t : List ℕ) → (s ++ (0 ∷ [])) ++ t ≡ s ++ (0 ∷ t)
append_zero [] t = refl
append_zero (x ∷ s) t = ap (λ u. x ∷ u) (append_zero s t)

-- what `sstr_build` makes of a text
abbrev far : List ℕ → List ℕ → Sstr
far pointer text = record { storage = at_data pointer (text ++ (0 ∷ [])); len = length text }

abbrev near : Sstr → List ℕ → Sstr
near sstr text = record {
  storage =
      in_place ((text ++ (0 ∷ [])) ++ drop (length (text ++ (0 ∷ []))) (union_bytes sstr.storage));
  len = length text;
}

far-Holds :
    (pointer text : List ℕ)
    → 7 < length text
    → length text < u32_mod - 1
    → Holds (far pointer text) text
unfolding deref_sstr
far-Holds pointer text long fits = record {
  more = [];
  length = refl;
  bytes = ground (arith, long, fits);
}

near-Holds : (sstr : Sstr) (text : List ℕ) → length text ≤ 7 → Holds (near sstr text) text
unfolding deref_sstr
near-Holds sstr text short = record {
  more = drop (length (text ++ (0 ∷ []))) (union_bytes sstr.storage);
  length = refl;
  bytes =
      ground (arith, short)
      ∙ ap some (append_zero text (drop (length (text ++ (0 ∷ []))) (union_bytes sstr.storage)));
}

-- `sstr_build` of a text of fewer than 2 ^ 32 - 1 bytes succeeds when `malloc` does, and the string then
-- holds the text, whether it fits in place or not.
pub sstr_build-Holds :
    (pointer : List ℕ) (sstr : Sstr) (str : List ℕ) (l : ℤ)
    → length (key_bytes str l) < u32_mod - 1
    → (s : Sstr) × (sstr_build (some pointer) sstr str l ≡ some (true, s))
      × Holds s (key_bytes str l)
unfolding sstr_build
sstr_build-Holds pointer sstr str l fits =
    let text = key_bytes str l in
    let kept : length text % u32_mod ≡ length text = omega (arith, fits) in
    elim (dec_lt 7 (length text)) [
      | yes long ↦ (
        far pointer text,
        ground (arith, long, fits)
            ∙ ap (λ n. some (true, record (far pointer text) { len = n })) kept,
        far-Holds pointer text long fits,
      )
      | no short ↦ (
        near sstr text,
        ground (arith, short) ∙ ap (λ n. some (true, record (near sstr text) { len = n })) kept,
        near-Holds sstr text (omega (arith, short)),
      )
    ]

same_bytes_complete : (t m m' : List ℕ) → same_bytes (length t) (t ++ m) (t ++ m') ≡ true
same_bytes_complete [] m m' = refl
same_bytes_complete (x ∷ t) m m' = ground (arith, same_bytes_complete t m m')

same_bytes_sound :
    (s t m m' : List ℕ)
    → length s ≡ length t
    → same_bytes (length s) (s ++ m) (t ++ m') ≡ true
    → s ≡ t
same_bytes_sound [] [] m m' e h = refl
same_bytes_sound [] (y ∷ t) m m' e h = absurd (omega (arith, e))
same_bytes_sound (x ∷ s) [] m m' e h = absurd (omega (arith, e))
same_bytes_sound (x ∷ s) (y ∷ t) m m' e h =
    let first : x ≡ y = ground (arith, h) in
    let rest : same_bytes (length s) (s ++ m) (t ++ m') ≡ true = ground (arith, h) in
    ap (λ z. z ∷ s) first ∙ ap (λ u. y ∷ u) (same_bytes_sound s t m m' (omega (arith, e)) rest)

module _ (ss1 ss2 : Sstr) (text1 text2 : List ℕ) (h1 : Holds ss1 text1) (h2 : Holds ss2 text2) where
  -- the comparison of what both point at
  abbrev against : Option (List ℕ) → Option (List ℕ) → Option Bool
  against none o = none
  against (some s1) none = none
  against (some s1) (some s2) = some (same_bytes ss1.len s1 s2)

  compared :
      ss1.len ≡ ss2.len
      → sstr_equal ss1 ss2
        ≡ some (same_bytes (length text1) (text1 ++ (0 ∷ h1.more)) (text2 ++ (0 ∷ h2.more)))
  unfolding sstr_equal
  compared e =
      let same_length : sstr_equal ss1 ss2 ≡ against (deref_sstr ss1) (deref_sstr ss2) =
        ground (arith, e) in
      same_length
      ∙ ap₂ against h1.bytes h2.bytes
      ∙ ap (λ n. some (same_bytes n (text1 ++ (0 ∷ h1.more)) (text2 ++ (0 ∷ h2.more)))) h1.length

  different : ss1.len ≢ ss2.len → sstr_equal ss1 ss2 ≡ some false
  unfolding sstr_equal
  different ne = ground (arith, ne)

  found : sstr_equal ss1 ss2 ≡ some true → text1 ≡ text2
  found h = elim (ℕ_discrete ss1.len ss2.len) [
    | yes e ↦
        same_bytes_sound text1 text2 (0 ∷ h1.more) (0 ∷ h2.more) (sym h1.length ∙ e ∙ h2.length)
          (some-injective _ _ (sym (compared e) ∙ h))
    | no ne ↦ absurd (true≢false (some-injective _ _ (sym h ∙ different ne)))
  ]

  -- Strings that hold texts compare as equal exactly when the texts are the same.
  pub sstr_equal_iff : (sstr_equal ss1 ss2 ≡ some true) ↔ (text1 ≡ text2)
  sstr_equal_iff = (found, same)
    where
      same : text1 ≡ text2 → sstr_equal ss1 ss2 ≡ some true
      same e =
          compared (h1.length ∙ ap length e ∙ sym h2.length)
          ∙ ap (λ t. some (same_bytes (length text1) (text1 ++ (0 ∷ h1.more)) (t ++ (0 ∷ h2.more))))
              (sym e)
          ∙ ap some (same_bytes_complete text1 (0 ∷ h1.more) (0 ∷ h2.more))
