-- ===== src/Common/Text.antt =====
-- Text of the program: a list of bytes, of which a call reads as many as it is told to, or those before
-- the first 0.
use skp.Common.Tests.{◌==◌, if◌then◌else◌}
use skp.Common.Lists.{take}
use skp.Common.Int.{ℤ, pos, negsuc}
use Prim.Native.Nat.{ℕ, suc}
use mathlib.Core.List.{List, [], ◌∷◌}

-- `strlen`
abbrev pub strlen : List ℕ → ℕ
strlen [] = 0
strlen (b ∷ bs) = if b == 0 then 0 else suc (strlen bs)

-- The bytes that a call reads: `pos n` is a length that is given, and a negative one asks for `strlen`.
abbrev pub key_bytes : List ℕ → ℤ → List ℕ
key_bytes key (pos len) = take len key
key_bytes key (negsuc n) = take (strlen key) key
