-- ===== src/Wire/Tests.antt =====
-- Test runs of the accessors and the checksum, and instances of their theorems.
use imud.Prelude.{ℕ, ◌≡◌, refl, [], ◌∷◌, ◌++◌, arith}
use imud.Wire.{
  Bytes, wire_put_u32, wire_get_u32, crc32_bit, crc32_bits, crc32_ieee_update, crc32_ieee_final,
  crc32_ieee,
}
use imud.Wire.Crc.{crc32_ieee-one_byte}

abbrev digits_text : Bytes
digits_text = 0x31 ∷ 0x32 ∷ 0x33 ∷ 0x34 ∷ 0x35 ∷ 0x36 ∷ 0x37 ∷ 0x38 ∷ 0x39 ∷ []

-- The check value that crc32.h names.
check_value : crc32_ieee digits_text ≡ 0xCBF43926
unfolding crc32_ieee crc32_ieee_final crc32_ieee_update crc32_bits crc32_bit
check_value = refl

little_endian : wire_put_u32 0x494D5544 ≡ 0x44 ∷ 0x55 ∷ 0x4D ∷ 0x49 ∷ []
little_endian = refl

read_back : wire_get_u32 (0x44 ∷ 0x55 ∷ 0x4D ∷ 0x49 ∷ []) ≡ 0x494D5544
unfolding wire_get_u32
read_back = refl

same_crc : crc32_ieee ((1 ∷ 2 ∷ []) ++ 7 ∷ (3 ∷ [])) ≡ crc32_ieee ((1 ∷ 2 ∷ []) ++ 7 ∷ (3 ∷ []))
same_crc = refl

crc32_ieee-one_byte_example : ◌≡◌ {A = ℕ} 7 7
crc32_ieee-one_byte_example =
    crc32_ieee-one_byte (1 ∷ 2 ∷ []) (3 ∷ []) 7 7 (omega arith) (omega arith) (omega arith)
      (omega arith) same_crc
