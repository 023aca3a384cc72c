-- ===== src/ChipTs/Tests.antt =====
-- Test runs of the time-stamping of a burst, and instances of its theorems.
use imud.Prelude.{ℕ, ◌*◌, ◌<◌, ◌≤◌, ◌≡◌, refl, inl, true, false, List, [], ◌∷◌, some, arith, map}
use imud.Types.{ImuSample, blank_imu}
use imud.ChipTs.{
  sub32, mul32, chip_ts_guard_accepted, chip_ts_guard_shift, chip_ts_guard_forward_ok,
  chip_ts_guard_backward_ok,
}
use imud.ChipTs.Fifo.{st_fifo_ts_begin}
use imud.ChipTs.Burst.{
  Driver, LogCount, stamp_back, first_ts, last_ts, choose_burst_ts, refuse_reading, take_reading,
  stamp_fallback, stamp_burst,
}
use imud.ChipTs.Seam.{Tracking}
use imud.ChipTs.Stamps.{Spaced, stamp_fallback-seam, stamp_burst-Spaced, reseed}

abbrev count : LogCount
count = record { seen = 0; next = 1 }

-- 833 Hz: 48 ticks of 25 µs a sample; the last burst ended at 100000.
abbrev driver : ℕ → Driver
driver n = record {
  ticks_per_sample = 48;
  rejects = count;
  fwd_rejects = count;
  bwd_rejects = count;
  ts_guard = record { last = 100000; have = true; refusals = n };
}

driver-Tracking : Tracking (driver 0)
driver-Tracking = record {
  seen = refl;
  word = omega arith;
  step_pos = omega arith;
  step_small = omega arith;
}

stamps : List ImuSample → List ℕ
stamps l = map (λ x. x.chip_ts) l

-- A read that lags puts the burst's start before the last stamp: it is moved to one period after.
overlap :
    stamps (stamp_fallback (driver 0) st_fifo_ts_begin (blank_imu ∷ blank_imu ∷ []) 100010 false).1
    ≡ 100048 ∷ 100096 ∷ []
unfolding stamps stamp_fallback choose_burst_ts refuse_reading take_reading stamp_back
    chip_ts_guard_accepted chip_ts_guard_shift chip_ts_guard_forward_ok chip_ts_guard_backward_ok
    st_fifo_ts_begin
overlap = refl

stamp_fallback-seam_example :
    let (d', stamped) =
      stamp_fallback (driver 0) st_fifo_ts_begin (blank_imu ∷ blank_imu ∷ []) 100010 false in
    let gap = sub32 (first_ts stamped) 100000 in
    (0 < gap) × (gap ≤ 8 * 48) × Tracking d' × (d'.ts_guard.last ≡ last_ts stamped)
stamp_fallback-seam_example =
    stamp_fallback-seam (driver 0) st_fifo_ts_begin blank_imu (blank_imu ∷ []) 100010
      driver-Tracking (omega arith) (omega arith)

stamp_burst-Spaced_example :
    Spaced 48
      (stamp_burst
        (driver 0)
        st_fifo_ts_begin
        (blank_imu ∷ blank_imu ∷ [])
        (some (0xAA ∷ 0x86 ∷ 0x01 ∷ 0x00 ∷ []))
        false).1
stamp_burst-Spaced_example =
    stamp_burst-Spaced (driver 0) st_fifo_ts_begin (blank_imu ∷ blank_imu ∷ [])
      (0xAA ∷ 0x86 ∷ 0x01 ∷ 0x00 ∷ []) false (omega arith) (omega arith)

far_ahead :
    chip_ts_guard_forward_ok (driver 3).ts_guard (sub32 90000000 (mul32 0 48)) (mul32 48 8) ≡ false
unfolding chip_ts_guard_forward_ok
far_ahead = refl

reseed_example :
    let (d', stamped) =
      stamp_fallback (driver 3) st_fifo_ts_begin (blank_imu ∷ []) 90000000 false in
    (last_ts stamped ≡ 90000000) × (d'.ts_guard.refusals ≡ 0) × (d'.ts_guard.last ≡ last_ts stamped)
reseed_example =
    reseed (driver 3) st_fifo_ts_begin blank_imu [] 90000000 (omega arith) (omega arith)
      (inl far_ahead)
