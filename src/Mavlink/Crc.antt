-- ===== src/Mavlink/Crc.antt =====
-- src/mavlink_encode.c: the checksum is CRC-16/MCRF4XX.
use imud.Prelude.{
  ℕ, zero, suc, ◌+◌, ◌*◌, ◌/◌, ◌%◌, ◌^◌, ◌<◌, ◌≡◌, refl, Bool, true, ◌&&◌, [], ◌∷◌, inl, inr, ap,
  ap₂, sym, ◌∙◌, arith, ◌==◌, ==_iff, bit_and, bit_xor, bit_and_mask, bit_xor-lt, bit_xor-zero,
  bit_xor_comm, bit_xor_assoc, bit_xor_fields, bit_xor_digit, Bool-cases, ℕ_discrete, ◌≢◌,
}
use mathlib.Core.Bool.{false≢true}
use mathlib.Core.Path.{subst}
use native.Mathlib.Nat.{pow-suc}
use imud.Wire.{Bytes, u8, shr, shl}
use imud.Wire.Bytes.{AreBytes}
use imud.Mavlink.{crc_tmp, crc_accumulate, crc_bytes}

-- The reference: a bit at a time, with the reflected polynomial 0x8408.
unfoldable pub mcrf4xx_bit : ℕ → ℕ
mcrf4xx_bit c = bit_xor (c / 2) (c % 2 * 0x8408)

unfoldable pub mcrf4xx_bits : ℕ → ℕ → ℕ
mcrf4xx_bits zero c = c
mcrf4xx_bits (suc n) c = mcrf4xx_bits n (mcrf4xx_bit c)

unfoldable pub mcrf4xx : ℕ → Bytes → ℕ
mcrf4xx c [] = c
mcrf4xx c (b ∷ bs) = mcrf4xx (mcrf4xx_bits 8 (bit_xor c b)) bs

-- Four operands in another order.
swap_middle :
    (a b c d : ℕ) → bit_xor (bit_xor a b) (bit_xor c d) ≡ bit_xor (bit_xor a c) (bit_xor b d)
swap_middle a b c d =
    bit_xor_assoc a b (bit_xor c d)
    ∙ ap (bit_xor a)
        (sym (bit_xor_assoc b c d) ∙ ap (λ t. bit_xor t d) (bit_xor_comm b c) ∙ bit_xor_assoc c b d)
    ∙ sym (bit_xor_assoc a c (bit_xor b d))

half_xor : (a b : ℕ) → bit_xor a b / 2 ≡ bit_xor (a / 2) (b / 2)
half_xor a b = omega (arith, bit_xor_digit a b)

poly_xor : (a b : ℕ) → bit_xor a b % 2 * 0x8408 ≡ bit_xor (a % 2 * 0x8408) (b % 2 * 0x8408)
poly_xor a b =
    by_parity (a % 2) (b % 2) (omega arith) (omega arith) (omega (arith, bit_xor_digit a b))
  where
    by_parity :
        (p q : ℕ)
        → p < 2
        → q < 2
        → bit_xor a b % 2 ≡ (p + q) % 2
        → bit_xor a b % 2 * 0x8408 ≡ bit_xor (p * 0x8408) (q * 0x8408)
    by_parity zero zero hp hq e = rw e refl
    by_parity zero (suc zero) hp hq e = rw e refl
    by_parity (suc zero) zero hp hq e = rw e refl
    by_parity (suc zero) (suc zero) hp hq e = rw e refl
    by_parity (suc (suc p)) q hp hq e = absurd (omega arith)
    by_parity p (suc (suc q)) hp hq e = absurd (omega arith)

bit_linear : (a b : ℕ) → mcrf4xx_bit (bit_xor a b) ≡ bit_xor (mcrf4xx_bit a) (mcrf4xx_bit b)
unfolding mcrf4xx_bit
bit_linear a b =
    ap₂ bit_xor (half_xor a b) (poly_xor a b)
    ∙ swap_middle (a / 2) (b / 2) (a % 2 * 0x8408) (b % 2 * 0x8408)

bits_linear :
    (n a b : ℕ) → mcrf4xx_bits n (bit_xor a b) ≡ bit_xor (mcrf4xx_bits n a) (mcrf4xx_bits n b)
unfolding mcrf4xx_bits
bits_linear zero a b = refl
bits_linear (suc n) a b =
    ap (mcrf4xx_bits n) (bit_linear a b) ∙ bits_linear n (mcrf4xx_bit a) (mcrf4xx_bit b)

-- Zeros shift out.
bits_shift : (n q : ℕ) → mcrf4xx_bits n (q * 2 ^ n) ≡ q
unfolding mcrf4xx_bits mcrf4xx_bit
bits_shift zero q = omega arith
bits_shift (suc n) q =
    let even : q * 2 ^ suc n % 2 ≡ 0 = omega (arith, ap (λ (t : ℕ). q * t) (pow-suc 2 n)) in
    let half : q * 2 ^ suc n / 2 ≡ q * 2 ^ n = omega (arith, ap (λ (t : ℕ). q * t) (pow-suc 2 n)) in
    rw (even, half, bit_xor-zero (q * 2 ^ n)) (bits_shift n q)

-- What the source's four operations make of a byte.
spread : ℕ → ℕ
spread t = bit_xor (bit_xor (shl (crc_tmp t) 8) (shl (crc_tmp t) 3)) (shr (crc_tmp t) 4)

-- Every byte from `n` down.
agree_to : ℕ → Bool
agree_to zero = true
agree_to (suc n) = (mcrf4xx_bits 8 n == spread n) && agree_to n

all_agree : agree_to 256 ≡ true
unfolding agree_to spread mcrf4xx_bits mcrf4xx_bit crc_tmp
all_agree = refl

agree_lem : (n t : ℕ) → agree_to n ≡ true → t < n → mcrf4xx_bits 8 t ≡ spread t
unfolding agree_to
agree_lem zero t h lt = absurd (omega arith)
agree_lem (suc n) t h lt = elim (Bool-cases (mcrf4xx_bits 8 n == spread n)) [
  | inr differs ↦ absurd (false≢true (rw differs at h))
  | inl same ↦ elim (ℕ_discrete t n) [
    | yes e ↦
        subst (λ k. mcrf4xx_bits 8 k ≡ spread k) (sym e)
          ((==_iff (mcrf4xx_bits 8 n) (spread n)).0 same)
    | no ne ↦ agree_lem n t (rw same at h) (below t n lt ne)
  ]
]
  where
    below : (t n : ℕ) → t < suc n → t ≢ n → t < n
    below t n lt ne = omega arith

crc_tmp-lt : (t : ℕ) → t < 2 ^ 8 → crc_tmp t < 2 ^ 8
unfolding crc_tmp
crc_tmp-lt t h = bit_xor-lt 8 t (u8 (shl t 4)) h (omega arith)

-- The source's expression with the state's high byte taken out.
accumulate_parts :
    (byte crc : ℕ)
    → byte < 2 ^ 8
    → crc < 2 ^ 16
    → crc_accumulate byte crc ≡ bit_xor (crc / 2 ^ 8) (spread (bit_xor byte (crc % 2 ^ 8)))
unfolding crc_accumulate spread
accumulate_parts byte crc hb hc =
    let t = bit_xor byte (crc % 2 ^ 8) in
    let q = crc / 2 ^ 8 in
    let tmp = crc_tmp t in
    let low : u8 (bit_and crc 0xFF) ≡ crc % 2 ^ 8 = omega (arith, bit_and_mask 8 crc) in
    let small = crc_tmp-lt t (bit_xor-lt 8 byte (crc % 2 ^ 8) hb (omega arith)) in
    let moved : bit_xor (bit_xor (bit_xor q (shl tmp 8)) (shl tmp 3)) (shr tmp 4)
        ≡ bit_xor q (bit_xor (bit_xor (shl tmp 8) (shl tmp 3)) (shr tmp 4)) =
      ap (λ x. bit_xor x (shr tmp 4)) (bit_xor_assoc q (shl tmp 8) (shl tmp 3))
      ∙ bit_xor_assoc q (bit_xor (shl tmp 8) (shl tmp 3)) (shr tmp 4) in
    let fits : bit_xor (bit_xor (bit_xor q (shl tmp 8)) (shl tmp 3)) (shr tmp 4) < 2 ^ 16 =
      bit_xor-lt 16 (bit_xor (bit_xor q (shl tmp 8)) (shl tmp 3)) (shr tmp 4)
        (bit_xor-lt 16 (bit_xor q (shl tmp 8)) (shl tmp 3)
          (bit_xor-lt 16 q (shl tmp 8) (omega arith) (omega (arith, small))) (omega (arith, small)))
        (omega (arith, small)) in
    rw low (omega (arith, moved, fits))

-- One byte: the source's shifts are eight rounds of the reference.
crc_accumulate_lem :
    (byte crc : ℕ)
    → byte < 2 ^ 8
    → crc < 2 ^ 16
    → crc_accumulate byte crc ≡ mcrf4xx_bits 8 (bit_xor crc byte)
crc_accumulate_lem byte crc hb hc =
    let r = crc % 2 ^ 8 in
    let q = crc / 2 ^ 8 in
    let t = bit_xor byte r in
    let t_lt : t < 256 = bit_xor-lt 8 byte r hb (omega arith) in
    let whole : crc ≡ bit_xor r (q * 2 ^ 8) = omega (arith, bit_xor_fields 8 r q (omega arith)) in
    let parted : bit_xor crc byte ≡ bit_xor t (q * 2 ^ 8) =
      bit_xor_comm crc byte ∙ ap (bit_xor byte) whole ∙ sym (bit_xor_assoc byte r (q * 2 ^ 8)) in
    accumulate_parts byte crc hb hc
    ∙ bit_xor_comm q (spread t)
    ∙ ap₂ bit_xor (sym (agree_lem 256 t all_agree t_lt)) (sym (bits_shift 8 q))
    ∙ sym (bits_linear 8 t (q * 2 ^ 8))
    ∙ ap (mcrf4xx_bits 8) (sym parted)

crc_accumulate-lt : (byte crc : ℕ) → crc_accumulate byte crc < 2 ^ 16
unfolding crc_accumulate
crc_accumulate-lt byte crc = omega arith

-- From any state of 16 bits, over any bytes, the checksum that the source makes with four shifts a byte
-- is CRC-16/MCRF4XX as its bitwise definition has it.
pub crc_bytes-mcrf4xx :
    (crc : ℕ) (bs : Bytes) → crc < 2 ^ 16 → AreBytes bs → crc_bytes crc bs ≡ mcrf4xx crc bs
unfolding crc_bytes mcrf4xx
crc_bytes-mcrf4xx crc [] hc hbs = refl
crc_bytes-mcrf4xx crc (b ∷ bs) hc (hb, hbs) =
    crc_bytes-mcrf4xx (crc_accumulate b crc) bs (crc_accumulate-lt b crc) hbs
    ∙ ap (λ c. mcrf4xx c bs) (crc_accumulate_lem b crc hb hc)
