-- ===== src/Prelude/Casts.antt =====
-- Casts that keep their value.
use imud.Prelude.{ℕ, ◌%◌, ◌^◌, ◌<◌, ◌≡◌, true, ltb, arith, ap}
use imud.Prelude.Int.{pos, to_int}

pub to_int_small : (n : ℕ) → n < 2 ^ 31 → to_int n ≡ pos n
unfolding to_int
to_int_small n h =
    let same : n % 2 ^ 32 ≡ n = omega (arith, h) in
    let small : ltb (n % 2 ^ 32) (2 ^ 31) ≡ true = ground (arith, same, h) in rw small (ap pos same)
