-- ===== src/Bridge.antt =====
-- src/bridge.c: what the bridges share. Times are those of CLOCK_MONOTONIC, which are not negative;
-- signals are the two flags that the handler sets.
use imud.Prelude.{
  ℕ, zero, suc, ◌+◌, ◌-◌, ◌*◌, ◌/◌, ◌%◌, ◌^◌, Bool, true, false, ◌&&◌, ◌||◌, List, [], ◌∷◌, ◌++◌,
  Option, none, some, length, take, drop, ltb, leb, ◌==◌, if◌then◌else◌,
}
use imud.Prelude.Int.{ℤ, pos, negsuc, to_int}
use imud.Prelude.Text.{is}
use imud.Wire.{Bytes}
use imud.Config.Fields.{Config}
use imud.Config.Defaults.{config_defaults}
use imud.Config.Values.{Host}
use imud.Config.Load.{Source, LoadRc, load_ok, err_open, err_parse, err_perm, config_load}
pub mod Ticks
pub mod Rates
pub mod Wait
mod Tests

abbrev pub second : ℕ
second = 1000000000

-- `struct timespec`
pub record Timespec : Type 0 where
  pub tv_sec : ℕ
  pub tv_nsec : ℕ

-- Nanoseconds.
abbrev pub total : Timespec → ℕ
total t = t.tv_sec * second + t.tv_nsec

unfoldable pub bridge_period_ns : ℤ → ℕ → ℕ
bridge_period_ns (pos rate_hz) fallback_ns = if ltb 0 rate_hz then second / rate_hz else fallback_ns
bridge_period_ns (negsuc rate_hz) fallback_ns = fallback_ns

-- The difference stops at 0, as the source has it. `long` is taken as 64 bits, which every difference
-- of two times fits; on a target where it has 32, the product would wrap.
unfoldable pub bridge_wait_ms : Timespec → Timespec → ℤ
bridge_wait_ms now next = to_int ((total next - total now + 999999) / 1000000)

unfoldable pub bridge_due : Timespec → Timespec → Bool
bridge_due now next =
    ltb next.tv_sec now.tv_sec || (now.tv_sec == next.tv_sec && leb next.tv_nsec now.tv_nsec)

-- `while (next->tv_nsec >= 1000000000L)`. A round takes a second off, so there are rounds enough.
unfoldable pub carry : ℕ → Timespec → Timespec
carry zero t = t
carry (suc rounds) t =
    let rest = carry rounds (record { tv_sec = t.tv_sec + 1; tv_nsec = t.tv_nsec - second }) in
    if leb second t.tv_nsec then rest else t

-- One round of the `do`.
unfoldable pub tick : Timespec → ℕ → Timespec
tick next period_ns =
    carry (next.tv_nsec + period_ns) (record next { tv_nsec = next.tv_nsec + period_ns })

-- The loop. A round comes a nanosecond or more closer to `now`, so there are rounds enough.
unfoldable pub advance : ℕ → Timespec → Timespec → ℕ → Timespec
advance zero next now period_ns = next
advance (suc rounds) next now period_ns =
    let next' = tick next period_ns in
    let rest = advance rounds next' now period_ns in
    if ltb next'.tv_sec now.tv_sec || (next'.tv_sec == now.tv_sec && leb next'.tv_nsec now.tv_nsec)
    then rest
    else next'

unfoldable pub bridge_advance : Timespec → Timespec → ℕ → Timespec
bridge_advance next now period_ns = advance (total now + 1) next now period_ns

unfoldable pub bridge_earlier : Timespec → Timespec → Timespec
bridge_earlier a b =
    if ltb a.tv_sec b.tv_sec || (a.tv_sec == b.tv_sec && ltb a.tv_nsec b.tv_nsec) then a else b

-- `none` where the bridge refuses to start.
unfoldable pub bridge_load_config : Host → Bool → Source → Option Config
bridge_load_config host etc_readable file =
    let (cfg, rc) = config_load host etc_readable file config_defaults in
    elim rc [ load_ok ↦ some cfg | err_open ↦ some cfg | err_parse ↦ none | err_perm ↦ none ]

-- The flag after it, and the new configuration where there is one.
unfoldable pub bridge_reload_begin : Host → Bool → Source → Bool → Bool × Option Config
bridge_reload_begin host etc_readable file false = (false, none)
bridge_reload_begin host etc_readable file true = (false, bridge_load_config host etc_readable file)

-- `SIGHUP`, or one of the two others.
pub data Signal : Type 0 where
  hangup terminate : Signal

-- `bridge_stop` and `bridge_reload`
pub record Flags : Type 0 where
  pub stop : Bool
  pub reload : Bool

unfoldable pub on_signal : Signal → Flags → Flags
on_signal hangup flags = record flags { reload = true }
on_signal terminate flags = record flags { stop = true }

-- What `bridge_parse_cli` returns: 0 with the path, 1 or -1.
pub data Cli : Type 0 where
  go_on : Bytes → Cli
  handled refused : Cli

-- The end of `bridge_parse_cli`, with the path and `check`.
unfoldable pub checked : (Bytes → Bool) → Bytes → Bool → Cli
checked loads path false = go_on path
checked loads path true = if loads path then handled else refused

-- The loop over the arguments after the program's name. `pathsz` is long enough for each path.
unfoldable pub parse_args : (Bytes → Bool) → Bytes → Bool → List Bytes → Cli
parse_args loads path check [] = checked loads path check
parse_args loads path check (arg ∷ []) =
    if is arg "--check-config"
    then checked loads path true
    else if is arg "--version" || is arg "--help" || is arg "-h"
    then handled
    else refused
parse_args loads path check (arg ∷ value ∷ args) =
    let after_config = parse_args loads value check args in
    let after_check = parse_args loads path true (value ∷ args) in
    if is arg "--config"
    then after_config
    else if is arg "--check-config"
    then after_check
    else if is arg "--version" || is arg "--help" || is arg "-h"
    then handled
    else refused

unfoldable pub bridge_parse_cli : Host → Bool → (Bytes → Source) → Bytes → List Bytes → Cli
bridge_parse_cli host etc_readable files default_conf args =
    parse_args
      (λ path. elim (bridge_load_config host etc_readable (files path)) [
        | some _ ↦ true
        | none ↦ false
      ])
      default_conf false args

-- `bridge_write_all`: what each `write` did, a number of bytes or EINTR or another failure; the bytes
-- that went out and the result, `none` while a write is pending.
pub data Wrote : Type 0 where
  wrote : ℕ → Wrote
  eintr broken : Wrote

unfoldable pub bridge_write_all : List Wrote → Bytes → Bytes × Option Bool
bridge_write_all _ [] = ([], some true)
bridge_write_all [] (b ∷ bs) = ([], none)
bridge_write_all (wrote w ∷ script) (b ∷ bs) =
    let (out, result) = bridge_write_all script (drop w (b ∷ bs)) in
    if w == 0 then ([], some false) else (take w (b ∷ bs) ++ out, result)
bridge_write_all (eintr ∷ script) (b ∷ bs) = bridge_write_all script (b ∷ bs)
bridge_write_all (broken ∷ script) (b ∷ bs) = ([], some false)
