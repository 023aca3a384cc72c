-- ===== src/ChipTs/Guard.antt =====
-- What the guard's tests and corrections promise about one reading.
use imud.Prelude.{ℕ, ◌+◌, ◌^◌, ◌<◌, ◌≤◌, ◌≡◌, true, arith, ◌⊎◌}
use imud.ChipTs.{
  sub32, add32, ChipTsGuard, chip_ts_guard_shift, chip_ts_guard_forward_ok,
  chip_ts_guard_backward_ok,
}

-- A reading that both tests pass, moved by the shift, lies after the last stamp by one tick at
-- least, and by no more than the larger of the forward bound and one step.
pub accepted_gap :
    (g : ChipTsGuard) (first step fwd bwd : ℕ)
    → g.have ≡ true
    → g.last < 2 ^ 32
    → first < 2 ^ 32
    → 0 < step
    → step < 2 ^ 31
    → bwd + step < 2 ^ 31
    → chip_ts_guard_forward_ok g first fwd ≡ true
    → chip_ts_guard_backward_ok g first bwd ≡ true
    → let gap = sub32 (add32 first (chip_ts_guard_shift g first step bwd)) g.last in
      (0 < gap) × ((gap ≤ fwd) ⊎ (gap ≡ step))
unfolding chip_ts_guard_forward_ok chip_ts_guard_backward_ok chip_ts_guard_shift
accepted_gap g first step fwd bwd h hl hf hs hs' hb f b = ground arith
