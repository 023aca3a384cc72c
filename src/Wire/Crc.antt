-- ===== src/Wire/Crc.antt =====
-- crc32.h: the state keeps to 32 bits, chunks compose, and damage confined to one byte shows.
use imud.Prelude.{
  ℕ, zero, suc, ◌/◌, ◌%◌, ◌^◌, ◌≤◌, ◌<◌, ◌≡◌, refl, ap, sym, ◌∙◌, ◌⊎◌, inl, inr, [], ◌∷◌, ◌++◌,
  arith, bit_and, bit_xor, bit_and_mask, bit_xor-zero, bit_xor-lt, bit_xor_cancel, bit_xor_top,
  bit_xor_comm,
}
use imud.Wire.{
  Bytes, crc32_bit, crc32_bits, crc32_init, crc32_ieee_update, crc32_ieee_final, crc32_ieee,
}
use imud.Wire.Bytes.{AreBytes, AreBytes-append}

abbrev poly : ℕ
poly = 0xEDB88320

low_bit : (c : ℕ) → bit_and c 1 ≡ c % 2
low_bit c = bit_and_mask 1 c

-- The mask `-(crc & 1)` keeps nothing of the polynomial, or all of it.
crc32_bit-even : (c : ℕ) → c % 2 ≡ 0 → crc32_bit c ≡ c / 2
unfolding crc32_bit
crc32_bit-even c h = rw (low_bit c, h) (bit_xor-zero (c / 2))

crc32_bit-odd : (c : ℕ) → c % 2 ≡ 1 → crc32_bit c ≡ bit_xor (c / 2) poly
unfolding crc32_bit
crc32_bit-odd c h = rw (low_bit c, h) refl

parity : (c : ℕ) → (c % 2 ≡ 0) ⊎ (c % 2 ≡ 1)
parity c = omega arith

crc32_bit-lt : (c : ℕ) → c < 2 ^ 32 → crc32_bit c < 2 ^ 32
crc32_bit-lt c h = elim (parity c) [
  | inl e ↦ rw (crc32_bit-even c e) (omega arith)
  | inr e ↦ rw (crc32_bit-odd c e) (bit_xor-lt 32 (c / 2) poly (omega arith) (omega arith))
]

-- An odd state shifts the polynomial's top bit in, an even one a zero.
crc32_bit-ge : (c : ℕ) → c < 2 ^ 32 → c % 2 ≡ 1 → 2 ^ 31 ≤ crc32_bit c
crc32_bit-ge c h e =
    rw (crc32_bit-odd c e) (bit_xor_top 31 (c / 2) poly (omega arith) (omega arith) (omega arith))

crc32_bit-recover : (c : ℕ) → c < 2 ^ 32 → c % 2 ≡ 1 → bit_xor (crc32_bit c) poly ≡ c / 2
crc32_bit-recover c h e =
    rw (crc32_bit-odd c e) (bit_xor_cancel 32 (c / 2) poly (omega arith) (omega arith))

crc32_bit-injective : (a b : ℕ) → a < 2 ^ 32 → b < 2 ^ 32 → crc32_bit a ≡ crc32_bit b → a ≡ b
crc32_bit-injective a b p q e = elim (parity a) [
  | inl ea ↦ elim (parity b) [
    | inl eb ↦ omega (arith, crc32_bit-even a ea, crc32_bit-even b eb)
    | inr eb ↦ absurd (omega (arith, crc32_bit-even a ea, crc32_bit-ge b q eb))
  ]
  | inr ea ↦ elim (parity b) [
    | inl eb ↦ absurd (omega (arith, crc32_bit-even b eb, crc32_bit-ge a p ea))
    | inr eb ↦ omega (
      arith,
      crc32_bit-recover a p ea,
      crc32_bit-recover b q eb,
      ap (λ (t : ℕ). bit_xor t poly) e,
    )
  ]
]

crc32_bits-lt : (n c : ℕ) → c < 2 ^ 32 → crc32_bits n c < 2 ^ 32
unfolding crc32_bits
crc32_bits-lt zero c h = h
crc32_bits-lt (suc n) c h = crc32_bits-lt n (crc32_bit c) (crc32_bit-lt c h)

crc32_bits-injective :
    (n a b : ℕ) → a < 2 ^ 32 → b < 2 ^ 32 → crc32_bits n a ≡ crc32_bits n b → a ≡ b
unfolding crc32_bits
crc32_bits-injective zero a b p q e = e
crc32_bits-injective (suc n) a b p q e =
    crc32_bit-injective a b p q
      (crc32_bits-injective n (crc32_bit a) (crc32_bit b) (crc32_bit-lt a p) (crc32_bit-lt b q) e)

xor_byte-lt : (c b : ℕ) → c < 2 ^ 32 → b < 2 ^ 8 → bit_xor c b < 2 ^ 32
xor_byte-lt c b p q = bit_xor-lt 32 c b p (omega arith)

-- The state stays a `uint32_t`.
pub update-lt : (c : ℕ) (p : Bytes) → c < 2 ^ 32 → AreBytes p → crc32_ieee_update c p < 2 ^ 32
unfolding crc32_ieee_update
update-lt c [] h v = h
update-lt c (b ∷ p) h (hb, v) =
    update-lt (crc32_bits 8 (bit_xor c b)) p (crc32_bits-lt 8 _ (xor_byte-lt c b h hb)) v

pub crc32_ieee-lt : (p : Bytes) → AreBytes p → crc32_ieee p < 2 ^ 32
unfolding crc32_ieee crc32_ieee_final
crc32_ieee-lt p v =
    bit_xor-lt 32 (crc32_ieee_update crc32_init p) 0xFFFFFFFF
      (update-lt crc32_init p (omega arith) v) (omega arith)

-- Feeding two chunks is feeding their concatenation.
pub update-append :
    (c : ℕ) (p q : Bytes)
    → crc32_ieee_update c (p ++ q) ≡ crc32_ieee_update (crc32_ieee_update c p) q
unfolding crc32_ieee_update
update-append c [] q = refl
update-append c (b ∷ p) q = update-append (crc32_bits 8 (bit_xor c b)) p q

-- One byte's rounds lose nothing of the state, and nothing of the byte.
byte-injective_state :
    (a b x : ℕ)
    → a < 2 ^ 32
    → b < 2 ^ 32
    → x < 2 ^ 8
    → crc32_bits 8 (bit_xor a x) ≡ crc32_bits 8 (bit_xor b x)
    → a ≡ b
byte-injective_state a b x h k hx e =
    let same : bit_xor a x ≡ bit_xor b x =
      crc32_bits-injective 8 (bit_xor a x) (bit_xor b x) (xor_byte-lt a x h hx)
        (xor_byte-lt b x k hx) e in
    sym (bit_xor_cancel 32 a x h (omega arith))
    ∙ ap (λ (t : ℕ). bit_xor t x) same
    ∙ bit_xor_cancel 32 b x k (omega arith)

byte-injective :
    (c x y : ℕ)
    → c < 2 ^ 32
    → x < 2 ^ 8
    → y < 2 ^ 8
    → crc32_bits 8 (bit_xor c x) ≡ crc32_bits 8 (bit_xor c y)
    → x ≡ y
byte-injective c x y h hx hy e =
    let same : bit_xor c x ≡ bit_xor c y =
      crc32_bits-injective 8 (bit_xor c x) (bit_xor c y) (xor_byte-lt c x h hx)
        (xor_byte-lt c y h hy) e in
    sym (bit_xor_cancel 32 x c (omega arith) h)
    ∙ ap (λ (t : ℕ). bit_xor t c) (bit_xor_comm x c ∙ same ∙ bit_xor_comm c y)
    ∙ bit_xor_cancel 32 y c (omega arith) h

update-injective :
    (a b : ℕ) (p : Bytes)
    → a < 2 ^ 32
    → b < 2 ^ 32
    → AreBytes p
    → crc32_ieee_update a p ≡ crc32_ieee_update b p
    → a ≡ b
unfolding crc32_ieee_update
update-injective a b [] h k v e = e
update-injective a b (x ∷ p) h k (hx, v) e = byte-injective_state a b x h k hx (
    update-injective (crc32_bits 8 (bit_xor a x)) (crc32_bits 8 (bit_xor b x)) p
      (crc32_bits-lt 8 _ (xor_byte-lt a x h hx)) (crc32_bits-lt 8 _ (xor_byte-lt b x k hx)) v e)

update_step-injective :
    (c x y : ℕ) (p : Bytes)
    → c < 2 ^ 32
    → x < 2 ^ 8
    → y < 2 ^ 8
    → AreBytes p
    → crc32_ieee_update c (x ∷ p) ≡ crc32_ieee_update c (y ∷ p)
    → x ≡ y
unfolding crc32_ieee_update
update_step-injective c x y p h hx hy v e = byte-injective c x y h hx hy (
    update-injective (crc32_bits 8 (bit_xor c x)) (crc32_bits 8 (bit_xor c y)) p
      (crc32_bits-lt 8 _ (xor_byte-lt c x h hx)) (crc32_bits-lt 8 _ (xor_byte-lt c y h hy)) v e)

final-injective :
    (a b : ℕ) → a < 2 ^ 32 → b < 2 ^ 32 → crc32_ieee_final a ≡ crc32_ieee_final b → a ≡ b
unfolding crc32_ieee_final
final-injective a b h k e =
    sym (bit_xor_cancel 32 a 0xFFFFFFFF h (omega arith))
    ∙ ap (λ (t : ℕ). bit_xor t 0xFFFFFFFF) e
    ∙ bit_xor_cancel 32 b 0xFFFFFFFF k (omega arith)

-- Two messages that differ in one byte at most, the bytes before and after it being the same, have
-- the same CRC32 only if that byte is the same too: damage confined to one byte is always seen.
pub crc32_ieee-one_byte :
    (pre post : Bytes) (x y : ℕ)
    → AreBytes pre
    → AreBytes post
    → x < 2 ^ 8
    → y < 2 ^ 8
    → crc32_ieee (pre ++ x ∷ post) ≡ crc32_ieee (pre ++ y ∷ post)
    → x ≡ y
unfolding crc32_ieee
crc32_ieee-one_byte pre post x y u v hx hy e =
    let before = update-lt crc32_init pre (omega arith) u in
    let same =
      final-injective (crc32_ieee_update crc32_init (pre ++ x ∷ post))
        (crc32_ieee_update crc32_init (pre ++ y ∷ post))
        (update-lt crc32_init (pre ++ x ∷ post) (omega arith)
          (AreBytes-append pre (x ∷ post) u (hx, v)))
        (update-lt crc32_init (pre ++ y ∷ post) (omega arith)
          (AreBytes-append pre (y ∷ post) u (hy, v)))
        e in
    update_step-injective (crc32_ieee_update crc32_init pre) x y post before hx hy v (
      sym (update-append crc32_init pre (x ∷ post))
      ∙ same
      ∙ update-append crc32_init pre (y ∷ post))
