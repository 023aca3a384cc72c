-- ===== src/Wire.antt =====
-- include/wire.h and include/crc32.h: the little-endian accessors and the checksum of the wire
-- packet and of the .imucap file. A `uint8_t *` is the list of the bytes from there on, so that
-- `p += 4` is `drop 4 p`; a float is the bit pattern that `memcpy` moves.
pub mod Bytes
pub mod Crc
mod Tests
use imud.Prelude.{
  ℕ, zero, suc, ◌+◌, ◌-◌, ◌*◌, ◌/◌, ◌%◌, ◌^◌, List, [], ◌∷◌, get_or, bit_and, bit_or, bit_xor,
}

abbrev pub Bytes : Type 0
Bytes = List ℕ

-- `p[i]`
abbrev pub byte_at : Bytes → ℕ → ℕ
byte_at p i = get_or p i 0

-- `(uint8_t)v`, `(uint16_t)v`, `(uint32_t)v`, `(uint64_t)v`
abbrev pub u8 : ℕ → ℕ
u8 v = v % 2 ^ 8

abbrev pub u16 : ℕ → ℕ
u16 v = v % 2 ^ 16

abbrev pub u32 : ℕ → ℕ
u32 v = v % 2 ^ 32

abbrev pub u64 : ℕ → ℕ
u64 v = v % 2 ^ 64

abbrev pub shr : ℕ → ℕ → ℕ
shr v k = v / 2 ^ k

abbrev pub shl : ℕ → ℕ → ℕ
shl v k = v * 2 ^ k

abbrev pub wire_put_u8 : ℕ → Bytes
wire_put_u8 v = u8 v ∷ []

abbrev pub wire_put_u16 : ℕ → Bytes
wire_put_u16 v = u8 v ∷ u8 (shr v 8) ∷ []

abbrev pub wire_put_u32 : ℕ → Bytes
wire_put_u32 v = u8 v ∷ u8 (shr v 8) ∷ u8 (shr v 16) ∷ u8 (shr v 24) ∷ []

abbrev pub wire_put_u64 : ℕ → Bytes
wire_put_u64 v =
    u8 v
    ∷ u8 (shr v 8)
    ∷ u8 (shr v 16)
    ∷ u8 (shr v 24)
    ∷ u8 (shr v 32)
    ∷ u8 (shr v 40)
    ∷ u8 (shr v 48)
    ∷ u8 (shr v 56)
    ∷ []

abbrev pub wire_put_f32 : ℕ → Bytes
wire_put_f32 = wire_put_u32

unfoldable pub wire_get_u8 : Bytes → ℕ
wire_get_u8 p = byte_at p 0

unfoldable pub wire_get_u16 : Bytes → ℕ
wire_get_u16 p = u16 (bit_or (byte_at p 0) (shl (byte_at p 1) 8))

unfoldable pub wire_get_u32 : Bytes → ℕ
wire_get_u32 p =
    bit_or (bit_or (bit_or (byte_at p 0) (shl (byte_at p 1) 8)) (shl (byte_at p 2) 16))
      (shl (byte_at p 3) 24)

unfoldable pub wire_get_u64 : Bytes → ℕ
wire_get_u64 p =
    let a = bit_or (bit_or (byte_at p 0) (shl (byte_at p 1) 8)) (shl (byte_at p 2) 16) in
    let b = bit_or (bit_or a (shl (byte_at p 3) 24)) (shl (byte_at p 4) 32) in
    let c = bit_or (bit_or b (shl (byte_at p 5) 40)) (shl (byte_at p 6) 48) in
    bit_or c (shl (byte_at p 7) 56)

unfoldable pub wire_get_f32 : Bytes → ℕ
wire_get_f32 = wire_get_u32

-- One round of the inner loop: `crc = (crc >> 1) ^ (0xEDB88320u & -(crc & 1u))`.
unfoldable pub crc32_bit : ℕ → ℕ
crc32_bit crc = bit_xor (shr crc 1) (bit_and 0xEDB88320 (u32 (2 ^ 32 - bit_and crc 1)))

-- `for (int b = 0; b < 8; b++)`, by the rounds left.
unfoldable pub crc32_bits : ℕ → ℕ → ℕ
crc32_bits zero crc = crc
crc32_bits (suc rounds) crc = crc32_bits rounds (crc32_bit crc)

abbrev pub crc32_init : ℕ
crc32_init = 0xFFFFFFFF

unfoldable pub crc32_ieee_update : ℕ → Bytes → ℕ
crc32_ieee_update crc [] = crc
crc32_ieee_update crc (b ∷ p) = crc32_ieee_update (crc32_bits 8 (bit_xor crc b)) p

unfoldable pub crc32_ieee_final : ℕ → ℕ
crc32_ieee_final crc = bit_xor crc 0xFFFFFFFF

unfoldable pub crc32_ieee : Bytes → ℕ
crc32_ieee p = crc32_ieee_final (crc32_ieee_update crc32_init p)
