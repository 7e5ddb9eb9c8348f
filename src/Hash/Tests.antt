-- ===== src/Hash/Tests.antt =====
-- The theorems on src/utils/hash.c at some keys.
use skp.Common.{ℕ, ◌≡◌, List, [], ◌∷◌, arith}
use skp.Hash.{AreBytes, no_bytes, a_byte, Triple, jhash_mix}
use skp.Hash.Mix.{undo_mix, undo_mix-jhash_mix}
use skp.Hash.Crc.{byte_crc32}
use skp.Hash.Crc.Bitwise.{register_crc, byte_crc32-register_crc}

-- "skp", with its end
abbrev text : List ℕ
text = 115 ∷ 107 ∷ 112 ∷ 0 ∷ []

text-AreBytes : AreBytes text
text-AreBytes =
    a_byte (omega arith)
      (a_byte (omega arith) (a_byte (omega arith) (a_byte (omega arith) no_bytes)))

abbrev words : Triple
words = record { a = 0xdeadbeef; b = 7; c = 0x80000001 }

byte_crc32-register_crc_example : byte_crc32 text 0xffffffff ≡ register_crc text 0xffffffff
byte_crc32-register_crc_example =
    byte_crc32-register_crc text 0xffffffff text-AreBytes (omega arith)

undo_mix-jhash_mix_example : undo_mix (jhash_mix words) ≡ words
undo_mix-jhash_mix_example =
    undo_mix-jhash_mix words (record { a = omega arith; b = omega arith; c = omega arith })
