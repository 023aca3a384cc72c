-- ===== src/Prelude/Int.antt =====
-- Integers over the native numbers; `negsuc n` is -(n + 1).
use Prim.Native.Nat.{ℕ, ◌-◌, ◌%◌, ◌^◌, ◌≤◌}
use mathlib.Core.Bool.{Bool, true, false}
use imud.Prelude.Tests.{ltb, if◌then◌else◌}

pub data ℤ : Type 0 where
  pos : ℕ → ℤ
  negsuc : ℕ → ℤ

-- `v < n` and `n < v`, for a bound that is not negative.
abbrev pub below : ℤ → ℕ → Bool
below (pos v) n = ltb v n
below (negsuc _) n = true

abbrev pub above : ℤ → ℕ → Bool
above (pos v) n = ltb n v
above (negsuc _) n = false

-- An integer between two bounds that are not negative.
abbrev pub Between : ℕ → ℕ → ℤ → Type 0
Between lo hi (pos v) = (lo ≤ v) × (v ≤ hi)
Between lo hi (negsuc _) = ⊥

-- `(int)n` of a wider integer that is not negative.
unfoldable pub to_int : ℕ → ℤ
to_int n = let w = n % 2 ^ 32 in if ltb w (2 ^ 31) then pos w else negsuc (2 ^ 32 - 1 - w)
