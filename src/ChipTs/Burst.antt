-- ===== src/ChipTs/Burst.antt =====
-- src/drivers/ism330dhcx.c, `ism_read`, step 3: stamping a burst after its drain. The state is the
-- part of the driver's static struct that this step reads or writes, its log counters included.
use imud.Prelude.{
  ℕ, ◌+◌, ◌-◌, ◌*◌, ◌^◌, ◌%◌, Bool, not, ◌||◌, List, [], ◌∷◌, Option, none, some, leb,
  if◌then◌else◌, length,
}
use imud.Types.{ImuSample}
use imud.Wire.{Bytes, wire_get_u32}
use imud.ChipTs.{
  sub32, add32, mul32, ChipTsGuard, chip_ts_guard_reset, chip_ts_guard_refused,
  chip_ts_guard_accepted, chip_ts_guard_shift, chip_ts_guard_forward_ok, chip_ts_guard_backward_ok,
  chip_ts_guard_next, chip_ts_guard_note,
}
use imud.ChipTs.Fifo.{StFifoTs, st_fifo_ts_apply}

abbrev pub ts_max_jitter_ticks : ℕ
ts_max_jitter_ticks = 40000

abbrev pub ts_fwd_slack_sets : ℕ
ts_fwd_slack_sets = 8

-- A count of events, and the next count that is worth a log line.
pub record LogCount : Type 0 where
  pub seen : ℕ
  pub next : ℕ

-- `if (++seen >= next) { LOG_W(…); next *= 10; }`
unfoldable pub count_event : LogCount → LogCount
count_event c =
    let n = (c.seen + 1) % 2 ^ 64 in
    if leb c.next n
    then record { seen = n; next = c.next * 10 % 2 ^ 64 }
    else record { seen = n; next = c.next }

pub record Driver : Type 0 where
  pub ticks_per_sample : ℕ
  pub rejects : LogCount
  pub fwd_rejects : LogCount
  pub bwd_rejects : LogCount
  pub ts_guard : ChipTsGuard

-- `buf[i].chip_ts = burst_ts - (uint32_t)(produced - 1 - i) * ticks_per_sample`: as many samples
-- follow an entry of the list as it is older than the newest.
unfoldable pub stamp_back : ℕ → ℕ → List ImuSample → List ImuSample
stamp_back burst_ts ticks [] = []
stamp_back burst_ts ticks (x ∷ xs) =
    record x { chip_ts = sub32 burst_ts (mul32 (length xs) ticks) } ∷ stamp_back burst_ts ticks xs

-- `buf[i].chip_ts += shift`
unfoldable pub shift_stamps : ℕ → List ImuSample → List ImuSample
shift_stamps shift [] = []
shift_stamps shift (x ∷ xs) = record x { chip_ts = add32 x.chip_ts shift } ∷ shift_stamps shift xs

abbrev pub first_ts : List ImuSample → ℕ
first_ts [] = 0
first_ts (x ∷ _) = x.chip_ts

-- `buf[produced - 1].chip_ts`
abbrev pub last_ts : List ImuSample → ℕ
last_ts [] = 0
last_ts (x ∷ []) = x.chip_ts
last_ts (_ ∷ y ∷ ys) = last_ts (y ∷ ys)

-- The branch that refuses a reading: the stamp of the newest sample, and the driver.
unfoldable pub refuse_reading : Driver → ℕ → ℕ → Bool → Driver × ℕ
refuse_reading d now_ts span bwd_bad =
    let (g, stale) = chip_ts_guard_refused d.ts_guard in
    let step = d.ticks_per_sample in
    let extrapolated = add32 (chip_ts_guard_next g step) span in
    if stale
    then (record d { ts_guard = chip_ts_guard_accepted g }, now_ts)
    else if bwd_bad
    then (record d { ts_guard = g; bwd_rejects = count_event d.bwd_rejects }, extrapolated)
    else (record d { ts_guard = g; fwd_rejects = count_event d.fwd_rejects }, extrapolated)

-- The branch that takes it, moved past an overlap.
unfoldable pub take_reading : Driver → ℕ → ℕ → Driver × ℕ
take_reading d now_ts first =
    let g = chip_ts_guard_accepted d.ts_guard in
    (
      record d { ts_guard = g },
      add32 now_ts (chip_ts_guard_shift g first d.ticks_per_sample ts_max_jitter_ticks),
    )

-- The fallback: `now_ts` stands for the newest sample's time, if the guard believes it. The result
-- is the driver and `burst_ts`.
unfoldable pub choose_burst_ts : Driver → ℕ → ℕ → Bool → Driver × ℕ
choose_burst_ts d0 now_ts produced overflow =
    let d = if overflow then record d0 { ts_guard = chip_ts_guard_reset } else d0 in
    let step = d.ticks_per_sample in
    let span = mul32 (produced - 1) step in
    let first = sub32 now_ts span in
    let fwd_bad = not (chip_ts_guard_forward_ok d.ts_guard first (mul32 step ts_fwd_slack_sets)) in
    let bwd_bad = not (chip_ts_guard_backward_ok d.ts_guard first ts_max_jitter_ticks) in
    if fwd_bad || bwd_bad then refuse_reading d now_ts span bwd_bad else take_reading d now_ts first

unfoldable pub note_newest : Driver → List ImuSample → Driver
note_newest d buf = record d { ts_guard = chip_ts_guard_note d.ts_guard (last_ts buf) }

-- A word that was present and refused is counted.
unfoldable pub stamp_fallback :
    Driver → StFifoTs → List ImuSample → ℕ → Bool → Driver × List ImuSample
stamp_fallback d0 fts buf now_ts overflow =
    let (d, burst_ts) = choose_burst_ts d0 now_ts (length buf) overflow in
    let stamped = stamp_back burst_ts d.ticks_per_sample buf in
    let d' = if fts.have_word then record d { rejects = count_event d.rejects } else d in
    (note_newest d' stamped, stamped)

unfoldable pub stamp_anchored : Driver → List ImuSample → Driver × List ImuSample
stamp_anchored d buf =
    let step = d.ticks_per_sample in
    let shift = chip_ts_guard_shift d.ts_guard (first_ts buf) step ts_max_jitter_ticks in
    let stamped = shift_stamps shift buf in (note_newest d stamped, stamped)

-- `if (!anchored) … else …`, at the result of `st_fifo_ts_apply`.
unfoldable pub stamp_by :
    Driver
    → StFifoTs
    → List ImuSample
    → ℕ
    → Bool
    → Option (List ImuSample)
    → Driver × List ImuSample
stamp_by d fts buf now_ts overflow none = stamp_fallback d fts buf now_ts overflow
stamp_by d fts buf now_ts overflow (some anchored) = stamp_anchored d anchored

-- Step 3, at the samples of the drain, which the drain left at `chip_ts = 0`. The option is the
-- register read: `none` if `bus_burst_read` failed, and then the stamps stay 0.
unfoldable pub stamp_burst :
    Driver → StFifoTs → List ImuSample → Option Bytes → Bool → Driver × List ImuSample
stamp_burst d fts [] reg overflow = (d, [])
stamp_burst d fts (x ∷ xs) none overflow = (d, x ∷ xs)
stamp_burst d fts (x ∷ xs) (some ts) overflow =
    let now_ts = wire_get_u32 ts in
    stamp_by d fts (x ∷ xs) now_ts overflow
      (st_fifo_ts_apply fts (x ∷ xs) d.ticks_per_sample now_ts)
