-- ===== src/Crypto/Crc32/Tests.antt =====
-- The checksum of "123456789", in two parts.
use dvida_oxide.Prelude.{ℕ, ◌≡◌, refl, bit_xor, List, [], ◌∷◌, ◌++◌, arith}
use dvida_oxide.Crypto.Crc32.{full_crc, partial_crc, full_loop, full_round, table_at, i_table}
use dvida_oxide.Crypto.Crc32.Reference.{reference, full_crc-reference}

abbrev digits : List ℕ
digits = 0x31 ∷ 0x32 ∷ 0x33 ∷ 0x34 ∷ []

abbrev more_digits : List ℕ
more_digits = 0x35 ∷ 0x36 ∷ 0x37 ∷ 0x38 ∷ 0x39 ∷ []

check_value : full_crc (digits ++ more_digits) ≡ 0xCBF43926
unfolding full_crc full_loop full_round table_at i_table
check_value = refl

full_crc-reference_example :
    (full_crc (digits ++ more_digits) ≡ reference (digits ++ more_digits))
    × (bit_xor (partial_crc (partial_crc 0xFFFFFFFF digits) more_digits) 0xFFFFFFFF
        ≡ full_crc (digits ++ more_digits))
full_crc-reference_example = full_crc-reference digits more_digits (ground arith)
