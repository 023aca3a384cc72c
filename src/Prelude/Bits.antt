-- ===== src/Prelude/Bits.antt =====
-- The native bit operations by their lowest digit, and the laws of masks, disjoint fields and
-- exclusive or that the components need, at every width.
use Prim.Native.Nat.{
  ℕ, zero, suc, ◌+◌, ◌-◌, ◌*◌, ◌/◌, ◌%◌, ◌^◌, ◌≤◌, ◌<◌, min, max, digits, bitwise, differ,
  bit_and-bitwise, bit_or-bitwise, bit_xor-bitwise,
}
use mathlib.Core.Path.{◌≡◌, refl, sym, ap, ap₂, ◌∙◌}
use native.Mathlib.Nat.{pow-suc, one-le-pow, mod-eq-sub-mul-div, div-add-mod, div-div-eq-div-mul}
use native.Mathlib.Omega.{arith}
pub use Prim.Native.Nat.{bit_and, bit_or, bit_xor}

module _ (z : ℕ → ℕ) (f : ℕ → ℕ → ℕ) where
  -- Any fuel that is not below the first number gives the same digits.
  digits_enough : (n m a b : ℕ) → a ≤ n → a ≤ m → digits z f n a b ≡ digits z f m a b
  digits_enough zero zero a b p q = refl
  digits_enough zero (suc m) zero b p q = refl
  digits_enough zero (suc m) (suc a) b p q = absurd (omega arith)
  digits_enough (suc n) zero zero b p q = refl
  digits_enough (suc n) zero (suc a) b p q = absurd (omega arith)
  digits_enough (suc n) (suc m) zero b p q = refl
  digits_enough (suc n) (suc m) (suc a) b p q =
      rw (digits_enough n m (suc a / 2) (b / 2) (omega arith) (omega arith))

  bitwise_digit :
      (a b : ℕ)
      → bitwise z f (suc a) b ≡ bitwise z f (suc a / 2) (b / 2) * 2 + f (suc a % 2) (b % 2)
  bitwise_digit a b =
      omega (arith, digits_enough a (suc a / 2) (suc a / 2) (b / 2) (omega arith) (omega arith))

pub bit_or_digit : (a b : ℕ) → bit_or a b ≡ bit_or (a / 2) (b / 2) * 2 + max (a % 2) (b % 2)
bit_or_digit zero b = simp bit_or-bitwise (omega arith)
bit_or_digit (suc a) b = simp bit_or-bitwise (bitwise_digit (λ y. y) max a b)

pub bit_and_digit : (a b : ℕ) → bit_and a b ≡ bit_and (a / 2) (b / 2) * 2 + min (a % 2) (b % 2)
bit_and_digit zero b = simp bit_and-bitwise (omega arith)
bit_and_digit (suc a) b = simp bit_and-bitwise (bitwise_digit (λ y. 0) min a b)

differ_mod : (x y : ℕ) → x < 2 → y < 2 → differ x y ≡ (x + y) % 2
differ_mod zero y p q = omega arith
differ_mod (suc zero) zero p q = omega arith
differ_mod (suc zero) (suc zero) p q = refl
differ_mod (suc zero) (suc (suc y)) p q = absurd (omega arith)
differ_mod (suc (suc x)) y p q = absurd (omega arith)

bit_xor-differ : (a b : ℕ) → bit_xor a b ≡ bit_xor (a / 2) (b / 2) * 2 + differ (a % 2) (b % 2)
bit_xor-differ zero b = simp bit_xor-bitwise (omega arith)
bit_xor-differ (suc a) b = simp bit_xor-bitwise (bitwise_digit (λ y. y) differ a b)

pub bit_xor_digit : (a b : ℕ) → bit_xor a b ≡ bit_xor (a / 2) (b / 2) * 2 + (a % 2 + b % 2) % 2
bit_xor_digit a b =
    omega (arith, bit_xor-differ a b, differ_mod (a % 2) (b % 2) (omega arith) (omega arith))

-- Zero on the right, at every width.
bit_or-zero_below : (k a : ℕ) → a < 2 ^ k → bit_or a 0 ≡ a
bit_or-zero_below zero a h = let e : a ≡ 0 = omega arith in rw e
bit_or-zero_below (suc k) a h =
    omega (
      arith,
      pow-suc 2 k,
      bit_or_digit a 0,
      bit_or-zero_below k (a / 2) (omega (arith, pow-suc 2 k)),
    )

bit_and-zero_below : (k a : ℕ) → a ≤ k → bit_and a 0 ≡ 0
bit_and-zero_below k zero h = refl
bit_and-zero_below zero (suc a) h = absurd (omega arith)
bit_and-zero_below (suc k) (suc a) h =
    omega (arith, bit_and_digit (suc a) 0, bit_and-zero_below k (suc a / 2) (omega arith))

pub bit_and-zero : (a : ℕ) → bit_and a 0 ≡ 0
bit_and-zero a = bit_and-zero_below a a (omega arith)

bit_or-zero_left : (b : ℕ) → bit_or 0 b ≡ b
bit_or-zero_left b = bit_or-bitwise 0 b

-- `r | (q << k)` is a sum where `r` has `k` bits.
pub bit_or_fields : (k r q : ℕ) → r < 2 ^ k → bit_or r (q * 2 ^ k) ≡ r + q * 2 ^ k
bit_or_fields zero r q h =
    let e : r ≡ 0 = omega arith in rw e (omega (arith, bit_or-zero_left (q * 1)))
bit_or_fields (suc k) r q h = omega (
  arith,
  pow-suc 2 k,
  ap (λ (t : ℕ). q * t) (pow-suc 2 k),
  bit_or_digit r (q * 2 ^ suc k),
  ap (λ (t : ℕ). bit_or (r / 2) t) (half k q),
  bit_or_fields k (r / 2) q (omega (arith, pow-suc 2 k)),
)
  where
    half : (k q : ℕ) → q * 2 ^ suc k / 2 ≡ q * 2 ^ k
    half k q = omega (arith, ap (λ (t : ℕ). q * t) (pow-suc 2 k))

-- A mask of `k` low bits is the remainder by `2 ^ k`.
pub bit_and_mask : (k a : ℕ) → bit_and a (2 ^ k - 1) ≡ a % 2 ^ k
bit_and_mask zero a = omega (arith, bit_and-zero a)
bit_and_mask (suc k) a = omega (
  arith,
  pow-suc 2 k,
  one-le-pow k 2,
  bit_and_digit a (2 ^ suc k - 1),
  ap (λ (t : ℕ). bit_and (a / 2) t) (half k),
  bit_and_mask k (a / 2),
  split k a,
)
  where
    half : (k : ℕ) → (2 ^ suc k - 1) / 2 ≡ 2 ^ k - 1
    half k = omega (arith, pow-suc 2 k, one-le-pow k 2)

    quotient : (k a : ℕ) → a / 2 ^ suc k ≡ a / 2 / 2 ^ k
    quotient k a =
        let e : 2 ^ suc k ≡ 2 * 2 ^ k = omega (arith, pow-suc 2 k) in
        rw e (sym (div-div-eq-div-mul a 2 (2 ^ k)))

    split : (k a : ℕ) → a % 2 ^ suc k ≡ a / 2 % 2 ^ k * 2 + a % 2
    split k a = omega (
      arith,
      mod-eq-sub-mul-div a (2 ^ suc k),
      mod-eq-sub-mul-div (a / 2) (2 ^ k),
      ap₂ (λ (s t : ℕ). s * t) (pow-suc 2 k) (quotient k a),
      div-add-mod a (2 ^ suc k),
      div-add-mod (a / 2) (2 ^ k),
    )

-- Exclusive or stays within the width, and undoes itself.
pub bit_xor-lt : (k a b : ℕ) → a < 2 ^ k → b < 2 ^ k → bit_xor a b < 2 ^ k
bit_xor-lt zero a b p q =
    let e : a ≡ 0 = omega arith in let f : b ≡ 0 = omega arith in rw (e, f) (omega arith)
bit_xor-lt (suc k) a b p q = omega (
  arith,
  pow-suc 2 k,
  bit_xor_digit a b,
  bit_xor-lt k (a / 2) (b / 2) (omega (arith, pow-suc 2 k)) (omega (arith, pow-suc 2 k)),
)

pub bit_xor_cancel : (k a b : ℕ) → a < 2 ^ k → b < 2 ^ k → bit_xor (bit_xor a b) b ≡ a
bit_xor_cancel zero a b p q =
    let e : a ≡ 0 = omega arith in let f : b ≡ 0 = omega arith in rw (e, f)
bit_xor_cancel (suc k) a b p q = omega (
  arith,
  pow-suc 2 k,
  bit_xor_digit a b,
  bit_xor_digit (bit_xor a b) b,
  ap (λ (t : ℕ). bit_xor t (b / 2)) (half a b),
  bit_xor_cancel k (a / 2) (b / 2) (omega (arith, pow-suc 2 k)) (omega (arith, pow-suc 2 k)),
)
  where
    half : (a b : ℕ) → bit_xor a b / 2 ≡ bit_xor (a / 2) (b / 2)
    half a b = omega (arith, bit_xor_digit a b)

-- The top bit of one operand survives where the other lacks it.
pub bit_xor_top : (k a b : ℕ) → a < 2 ^ k → 2 ^ k ≤ b → b < 2 ^ suc k → 2 ^ k ≤ bit_xor a b
bit_xor_top zero a b p q r =
    let e : a ≡ 0 = omega arith in let f : b ≡ 1 = omega arith in rw (e, f) (omega arith)
bit_xor_top (suc k) a b p q r = omega (
  arith,
  pow-suc 2 k,
  pow-suc 2 (suc k),
  bit_xor_digit a b,
  bit_xor_top k (a / 2) (b / 2) (omega (arith, pow-suc 2 k)) (omega (arith, pow-suc 2 k))
      (omega (arith, pow-suc 2 k, pow-suc 2 (suc k))),
)

bit_xor-zero_below : (k a : ℕ) → a ≤ k → bit_xor a 0 ≡ a
bit_xor-zero_below k zero h = refl
bit_xor-zero_below zero (suc a) h = absurd (omega arith)
bit_xor-zero_below (suc k) (suc a) h =
    omega (arith, bit_xor_digit (suc a) 0, bit_xor-zero_below k (suc a / 2) (omega arith))

pub bit_xor-zero : (a : ℕ) → bit_xor a 0 ≡ a
bit_xor-zero a = bit_xor-zero_below a a (omega arith)

bit_xor_comm_below : (k a b : ℕ) → a ≤ k → bit_xor a b ≡ bit_xor b a
bit_xor_comm_below k zero b h = bit_xor-bitwise 0 b ∙ sym (bit_xor-zero b)
bit_xor_comm_below zero (suc a) b h = absurd (omega arith)
bit_xor_comm_below (suc k) (suc a) b h = omega (
  arith,
  bit_xor_digit (suc a) b,
  bit_xor_digit b (suc a),
  bit_xor_comm_below k (suc a / 2) (b / 2) (omega arith),
)

pub bit_xor_comm : (a b : ℕ) → bit_xor a b ≡ bit_xor b a
bit_xor_comm a b = bit_xor_comm_below a a b (omega arith)

-- Exclusive or is associative, and halves go through it.
half_xor : (a b : ℕ) → bit_xor a b / 2 ≡ bit_xor (a / 2) (b / 2)
half_xor a b = omega (arith, bit_xor_digit a b)

bit_xor_assoc_below : (k a b c : ℕ) → a ≤ k → bit_xor (bit_xor a b) c ≡ bit_xor a (bit_xor b c)
bit_xor_assoc_below k zero b c h = rw (bit_xor-bitwise 0 b, bit_xor-bitwise 0 (bit_xor b c)) refl
bit_xor_assoc_below zero (suc a) b c h = absurd (omega arith)
bit_xor_assoc_below (suc k) (suc a) b c h = omega (
  arith,
  bit_xor_digit (bit_xor (suc a) b) c,
  bit_xor_digit (suc a) (bit_xor b c),
  bit_xor_digit (suc a) b,
  bit_xor_digit b c,
  ap (λ (t : ℕ). bit_xor t (c / 2)) (half_xor (suc a) b),
  ap (λ (t : ℕ). bit_xor (suc a / 2) t) (half_xor b c),
  bit_xor_assoc_below k (suc a / 2) (b / 2) (c / 2) (omega arith),
)

pub bit_xor_assoc : (a b c : ℕ) → bit_xor (bit_xor a b) c ≡ bit_xor a (bit_xor b c)
bit_xor_assoc a b c = bit_xor_assoc_below a a b c (omega arith)

-- `r ^ (q << k)` is a sum where `r` has `k` bits.
pub bit_xor_fields : (k r q : ℕ) → r < 2 ^ k → bit_xor r (q * 2 ^ k) ≡ r + q * 2 ^ k
bit_xor_fields zero r q h =
    let e : r ≡ 0 = omega arith in
    rw e (omega (arith, bit_xor_comm 0 (q * 1), bit_xor-zero (q * 1)))
bit_xor_fields (suc k) r q h = omega (
  arith,
  pow-suc 2 k,
  ap (λ (t : ℕ). q * t) (pow-suc 2 k),
  bit_xor_digit r (q * 2 ^ suc k),
  ap (λ (t : ℕ). bit_xor (r / 2) t) (halved k q),
  bit_xor_fields k (r / 2) q (omega (arith, pow-suc 2 k)),
)
  where
    halved : (k q : ℕ) → q * 2 ^ suc k / 2 ≡ q * 2 ^ k
    halved k q = omega (arith, ap (λ (t : ℕ). q * t) (pow-suc 2 k))
