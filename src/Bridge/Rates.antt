-- ===== src/Bridge/Rates.antt =====
-- src/bridge.c: the period of every rate that a configuration can hold.
use imud.Prelude.{ℕ, ◌≤◌, ◌≡◌, Bool, true, some, none, arith, ltb}
use mathlib.Core.Path.{subst}
use mathlib.Core.Option.{some-injective, none-ne-some}
use native.Mathlib.Nat.{le-div_iff_mul-le, div-le_self}
use imud.Prelude.Int.{ℤ, pos, negsuc, Between}
use imud.Config.Fields.{Config, IntField}
use imud.Config.Defaults.{config_defaults}
use imud.Config.Values.{Host}
use imud.Config.Load.{Source, LoadRc, load_ok, err_open, err_parse, err_perm, config_load}
use imud.Config.Ranges.{WellFormed, unasked, int_range}
use imud.Config.Sound.{config_load-keeps}
use imud.Config.Kept.{config_defaults-WellFormed}
use imud.Bridge.{Timespec, bridge_period_ns, bridge_load_config, bridge_advance, second}
use imud.Bridge.Ticks.{Normal, Lands, bridge_advance-Lands}

taken :
    (rc : LoadRc) (c cfg : Config)
    → (elim rc [ load_ok ↦ some c | err_open ↦ some c | err_parse ↦ none | err_perm ↦ none ])
      ≡ some cfg
    → c ≡ cfg
taken load_ok c cfg e = some-injective c cfg e
taken err_open c cfg e = some-injective c cfg e
taken err_parse c cfg e = absurd (none-ne-some cfg e)
taken err_perm c cfg e = absurd (none-ne-some cfg e)

-- What a bridge starts with is well formed.
bridge_load_config-WellFormed :
    (host : Host) (etc_readable : Bool) (file : Source) (cfg : Config)
    → bridge_load_config host etc_readable file ≡ some cfg
    → WellFormed unasked cfg
unfolding bridge_load_config
bridge_load_config-WellFormed host etc_readable file cfg e =
    let r = config_load host etc_readable file config_defaults in
    subst (WellFormed unasked) (taken r.1 r.0 cfg e) (
      config_load-keeps unasked host etc_readable file config_defaults (λ _ _ _. tt)
        (config_defaults-WellFormed unasked (λ _. tt)))

rate_period :
    (v : ℤ) (fallback : ℕ)
    → Between 1 32000 v
    → (31250 ≤ bridge_period_ns v fallback) × (bridge_period_ns v fallback ≤ second)
unfolding bridge_period_ns
rate_period (pos v) fallback h =
    let (least, most) = h in
    let positive : ltb 0 v ≡ true = ground (arith, least) in
    rw positive (
      (le-div_iff_mul-le {k = v} {x = 31250} {y = second} (omega (arith, least))).1
          (omega (arith, most)),
      div-le_self second v,
    )
rate_period (negsuc v) fallback h = absurd h

-- Whatever the configuration file, where a bridge starts, every rate whose key is held to 1..32000 Hz
-- gives a period between 31250 ns and a second, never the fallback, and with it the emit loop's
-- deadline moves past any time.
pub bridge_rate-Lands :
    (host : Host) (etc_readable : Bool) (file : Source) (cfg : Config) (f : IntField) (fallback : ℕ)
    (next now : Timespec)
    → bridge_load_config host etc_readable file ≡ some cfg
    → int_range f ≡ some (1, 32000)
    → Normal now
    → (31250 ≤ bridge_period_ns (cfg.ints f) fallback)
      × (bridge_period_ns (cfg.ints f) fallback ≤ second)
      × Lands next now
          (bridge_period_ns (cfg.ints f) fallback)
          (bridge_advance next now (bridge_period_ns (cfg.ints f) fallback))
bridge_rate-Lands host etc_readable file cfg f fallback next now loads rate normal =
    let ok = bridge_load_config-WellFormed host etc_readable file cfg loads in
    let in_range : Between 1 32000 (cfg.ints f) = rw rate at (ok.0 f) in
    let (least, most) = rate_period (cfg.ints f) fallback in_range in
    (
      least,
      most,
      bridge_advance-Lands next now (bridge_period_ns (cfg.ints f) fallback) normal
          (omega (arith, least)),
    )
