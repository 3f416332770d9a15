-- ===== src/Ext2/Bits/Tests.antt =====
-- The bits of two bytes.
use dvida_oxide.Prelude.{◌≡◌, refl, some, [], ◌∷◌, get_elem?}
use dvida_oxide.Ext2.{Bytes}
use dvida_oxide.Ext2.Bits.{bits, next, bit_one}

abbrev two_bytes : Bytes
two_bytes = 0b0000_0101 ∷ 0b1000_0000 ∷ []

bits_run : get_elem? (bits two_bytes) 15 ≡ some bit_one
unfolding bits next
bits_run = refl
