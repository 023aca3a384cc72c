-- ===== src/ChipTs.antt =====
-- src/drivers/chip_ts.h, src/drivers/st_fifo_ts.h and the time-stamping half of `ism_read` in
-- src/drivers/ism330dhcx.c: how a burst of samples gets its chip timestamps. A `uint32_t` is a
-- number below 2 ^ 32 with its wrap-around written out; an `int32_t` difference is its bit
-- pattern, negative from 2 ^ 31 on.
pub mod Guard
pub mod Fifo
pub mod Burst
pub mod Seam
pub mod Stamps
mod Tests
use imud.Prelude.{
  ℕ, ◌+◌, ◌-◌, ◌*◌, ◌%◌, ◌^◌, Bool, true, false, not, ◌&&◌, ◌||◌, ltb, leb, ◌==◌, if◌then◌else◌,
}
use imud.Wire.{u32}

-- `a - b`, `a + b` and `a * b` on `uint32_t`
abbrev pub sub32 : ℕ → ℕ → ℕ
sub32 a b = (a + 2 ^ 32 - b) % 2 ^ 32

abbrev pub add32 : ℕ → ℕ → ℕ
add32 a b = (a + b) % 2 ^ 32

abbrev pub mul32 : ℕ → ℕ → ℕ
mul32 a b = a * b % 2 ^ 32

-- `delta > 0` and `delta < 0` of an `int32_t`
abbrev pub is_positive : ℕ → Bool
is_positive d = ltb 0 d && ltb d (2 ^ 31)

abbrev pub is_negative : ℕ → Bool
is_negative d = leb (2 ^ 31) d

-- `chip_ts_guard_t`
pub record ChipTsGuard : Type 0 where
  pub last : ℕ
  pub have : Bool
  pub refusals : ℕ

abbrev pub chip_ts_max_refusals : ℕ
chip_ts_max_refusals = 3

unfoldable pub chip_ts_guard_reset : ChipTsGuard
chip_ts_guard_reset = record { last = 0; have = false; refusals = 0 }

unfoldable pub chip_ts_guard_refused : ChipTsGuard → ChipTsGuard × Bool
chip_ts_guard_refused g =
    let n = u32 (g.refusals + 1) in (record g { refusals = n }, ltb chip_ts_max_refusals n)

unfoldable pub chip_ts_guard_accepted : ChipTsGuard → ChipTsGuard
chip_ts_guard_accepted g = record g { refusals = 0 }

-- `(uint32_t)(-delta)`; at the one difference of 2 ^ 31 the negation in C overflows, and this is
-- the wrapped value.
abbrev pub negated : ℕ → ℕ
negated d = sub32 0 d

unfoldable pub chip_ts_guard_shift : ChipTsGuard → ℕ → ℕ → ℕ → ℕ
chip_ts_guard_shift g first step max_jitter =
    let delta = sub32 first g.last in
    if not g.have
    then 0
    else if is_positive delta
    then 0
    else if ltb max_jitter (negated delta)
    then 0
    else add32 (negated delta) step

unfoldable pub chip_ts_guard_forward_ok : ChipTsGuard → ℕ → ℕ → Bool
chip_ts_guard_forward_ok g first max_forward =
    let delta = sub32 first g.last in
    if not g.have then true else if not (is_positive delta) then true else leb delta max_forward

unfoldable pub chip_ts_guard_backward_ok : ChipTsGuard → ℕ → ℕ → Bool
chip_ts_guard_backward_ok g first max_backward =
    let delta = sub32 first g.last in
    if not g.have
    then true
    else if not (is_negative delta)
    then true
    else leb (negated delta) max_backward

unfoldable pub chip_ts_guard_next : ChipTsGuard → ℕ → ℕ
chip_ts_guard_next g step = add32 g.last step

unfoldable pub chip_ts_guard_note : ChipTsGuard → ℕ → ChipTsGuard
chip_ts_guard_note g newest = record g { last = newest; have = true }
