-- ===== src/Wire/Bytes.antt =====
-- The accessors of wire.h undo one another: a value that fits its width survives the wire, and
-- bytes survive the value.
use imud.Prelude.{ℕ, ◌+◌, ◌*◌, ◌^◌, ◌<◌, ◌≡◌, [], ◌∷◌, ◌++◌, arith, bit_or_fields}
use imud.Wire.{
  Bytes, wire_put_u16, wire_put_u32, wire_put_u64, wire_get_u16, wire_get_u32, wire_get_u64, u8,
  shr,
}

-- Every element is a `uint8_t`.
abbrev pub AreBytes : Bytes → Type 0
AreBytes [] = Unit {0}
AreBytes (b ∷ p) = (b < 2 ^ 8) × AreBytes p

pub wire_get_u16_sum :
    (a b : ℕ) (rest : Bytes) → a < 2 ^ 8 → b < 2 ^ 8 → wire_get_u16 (a ∷ b ∷ rest) ≡ a + b * 2 ^ 8
unfolding wire_get_u16
wire_get_u16_sum a b rest p q = omega (arith, bit_or_fields 8 a b p)

pub wire_get_u32_sum :
    (a b c d : ℕ) (rest : Bytes)
    → a < 2 ^ 8
    → b < 2 ^ 8
    → c < 2 ^ 8
    → d < 2 ^ 8
    → wire_get_u32 (a ∷ b ∷ c ∷ d ∷ rest) ≡ a + b * 2 ^ 8 + c * 2 ^ 16 + d * 2 ^ 24
unfolding wire_get_u32
wire_get_u32_sum a b c d rest p q r s =
    rw (bit_or_fields 8 a b p, bit_or_fields 16 (a + b * 2 ^ 8) c (omega arith))
      (bit_or_fields 24 (a + b * 2 ^ 8 + c * 2 ^ 16) d (omega arith))

pub wire_get_u64_sum :
    (a b c d e f g h : ℕ) (rest : Bytes)
    → AreBytes (a ∷ b ∷ c ∷ d ∷ e ∷ f ∷ g ∷ h ∷ [])
    → wire_get_u64 (a ∷ b ∷ c ∷ d ∷ e ∷ f ∷ g ∷ h ∷ rest)
      ≡ a + b * 2 ^ 8 + c * 2 ^ 16 + d * 2 ^ 24 + e * 2 ^ 32 + f * 2 ^ 40 + g * 2 ^ 48 + h * 2 ^ 56
unfolding wire_get_u64
wire_get_u64_sum a b c d e f g h rest (p, (q, (r, (s, (t, (u, (v, (w, _)))))))) =
    rw
      (
        bit_or_fields 8 a b p,
        bit_or_fields 16 (a + b * 2 ^ 8) c (omega arith),
        bit_or_fields 24 (a + b * 2 ^ 8 + c * 2 ^ 16) d (omega arith),
        bit_or_fields 32 (a + b * 2 ^ 8 + c * 2 ^ 16 + d * 2 ^ 24) e (omega arith),
        bit_or_fields 40 (a + b * 2 ^ 8 + c * 2 ^ 16 + d * 2 ^ 24 + e * 2 ^ 32) f (omega arith),
        bit_or_fields 48 (a + b * 2 ^ 8 + c * 2 ^ 16 + d * 2 ^ 24 + e * 2 ^ 32 + f * 2 ^ 40) g
            (omega arith),
      )
      (bit_or_fields 56
        (a + b * 2 ^ 8 + c * 2 ^ 16 + d * 2 ^ 24 + e * 2 ^ 32 + f * 2 ^ 40 + g * 2 ^ 48) h
        (omega arith))

pub get-put_u16 : (v : ℕ) (rest : Bytes) → v < 2 ^ 16 → wire_get_u16 (wire_put_u16 v ++ rest) ≡ v
get-put_u16 v rest h =
    omega (arith, wire_get_u16_sum (u8 v) (u8 (shr v 8)) rest (omega arith) (omega arith))

pub get-put_u32 : (v : ℕ) (rest : Bytes) → v < 2 ^ 32 → wire_get_u32 (wire_put_u32 v ++ rest) ≡ v
get-put_u32 v rest h = omega (
  arith,
  wire_get_u32_sum (u8 v) (u8 (shr v 8)) (u8 (shr v 16)) (u8 (shr v 24)) rest (omega arith)
      (omega arith) (omega arith) (omega arith),
)

pub get-put_u64 : (v : ℕ) (rest : Bytes) → v < 2 ^ 64 → wire_get_u64 (wire_put_u64 v ++ rest) ≡ v
get-put_u64 v rest h = omega (
  arith,
  wire_get_u64_sum (u8 v) (u8 (shr v 8)) (u8 (shr v 16)) (u8 (shr v 24)) (u8 (shr v 32))
      (u8 (shr v 40)) (u8 (shr v 48)) (u8 (shr v 56)) rest (omega arith),
)

-- The bytes that the store writes are bytes.
pub put_u32-AreBytes : (v : ℕ) → AreBytes (wire_put_u32 v)
put_u32-AreBytes v = omega arith

pub AreBytes-append : (p q : Bytes) → AreBytes p → AreBytes q → AreBytes (p ++ q)
AreBytes-append [] q u v = v
AreBytes-append (b ∷ p) q (h, u) v = (h, AreBytes-append p q u v)
