-- ===== src/Bridge/Tests.antt =====
-- The bridges' timing and configuration on concrete values.
use imud.Prelude.{
  ℕ, ◌+◌, ◌-◌, ◌*◌, ◌≤◌, ◌<◌, ◌≡◌, ◌↔◌, refl, true, false, List, [], ◌∷◌, ◌++◌, some, none, arith,
}
use imud.Prelude.Int.{pos}
use imud.Prelude.Text.{text, same_bytes}
use imud.Wire.{Bytes}
use imud.Config.Fields.{nmea_rate_hz}
use imud.Config.Defaults.{config_defaults}
use imud.Config.Values.{Host}
use imud.Config.Load.{missing, config_load}
use imud.Config.Ranges.{int_range}
use imud.Bridge.{
  Timespec, total, second, carry, tick, advance, bridge_advance, bridge_wait_ms, bridge_due,
  bridge_period_ns, bridge_load_config, bridge_parse_cli, parse_args, checked, go_on, refused,
  Wrote, wrote, eintr, bridge_write_all,
}
use imud.Bridge.Ticks.{Lands, bridge_advance-Lands}
use imud.Bridge.Wait.{bridge_wait_ms_lem, bridge_write_all-whole}
use imud.Bridge.Rates.{bridge_rate-Lands}

-- A process with no home directory, whose C library finds no number in any text.
abbrev bare : Host
bare = record {
  home = none;
  strtol = λ _. record { value = pos 0; used = 0; erange = false };
  strtod = λ _. (0, 0);
  isfinite = λ _. true;
  less = λ _ _. false;
  to_float = λ d. d;
  is_nonzero = λ _. false;
  to_mhz = pos;
  add = λ a b. a + b;
  sub = λ a b. a - b;
  mul = λ a b. a * b;
  div = λ a _. a;
  neg = λ a. a;
  sqrt = λ a. a;
  cos = λ a. a;
  sin = λ a. a;
}

abbrev deadline : Timespec
deadline = record { tv_sec = 4; tv_nsec = 900000000 }

abbrev late : Timespec
late = record { tv_sec = 5; tv_nsec = 50000000 }

abbrev early : Timespec
early = record { tv_sec = 4; tv_nsec = 899500001 }

-- Two ticks of 100 ms were missed.
skips : bridge_advance deadline late 100000000 ≡ record { tv_sec = 5; tv_nsec = 100000000 }
unfolding bridge_advance advance tick carry
skips = refl

bridge_advance-Lands_example :
    Lands deadline late 100000000 (bridge_advance deadline late 100000000)
bridge_advance-Lands_example =
    bridge_advance-Lands deadline late 100000000 (omega arith) (omega arith)

bridge_wait_ms_lem_example :
    (w : ℕ) × (bridge_wait_ms early deadline ≡ pos w)
    × (total deadline ≤ total early + w * 1000000)
    × (w * 1000000 < (total deadline - total early) + 1000000)
    × ((w ≡ 0) ↔ (bridge_due early deadline ≡ true))
bridge_wait_ms_lem_example =
    bridge_wait_ms_lem early deadline (omega arith) (omega arith) (omega arith)

bridge_rate-Lands_example :
    (31250
      ≤ bridge_period_ns ((config_load bare true missing config_defaults).0.ints nmea_rate_hz) 1)
    × (bridge_period_ns ((config_load bare true missing config_defaults).0.ints nmea_rate_hz) 1
        ≤ second)
    × Lands deadline late
        (bridge_period_ns ((config_load bare true missing config_defaults).0.ints nmea_rate_hz) 1)
        (bridge_advance deadline late (
          bridge_period_ns ((config_load bare true missing config_defaults).0.ints nmea_rate_hz) 1))
unfolding bridge_load_config config_load int_range
bridge_rate-Lands_example =
    bridge_rate-Lands bare true missing (config_load bare true missing config_defaults).0
      nmea_rate_hz 1 deadline late refl refl (omega arith)

abbrev writes : List Wrote
writes = wrote 2 ∷ eintr ∷ wrote 5 ∷ []

bridge_write_all-whole_example :
    (rest : Bytes) × ((bridge_write_all writes (text "packet")).0 ++ rest ≡ text "packet")
    × ((bridge_write_all writes (text "packet")).1 ≡ some true → rest ≡ [])
bridge_write_all-whole_example = bridge_write_all-whole writes (text "packet")

-- `--config` with no path after it is an unknown option.
lone_config :
    bridge_parse_cli bare true (λ _. missing) (text "/etc/imud.conf") (text "--config" ∷ [])
    ≡ refused
unfolding bridge_parse_cli parse_args checked same_bytes
lone_config = refl

another_config :
    bridge_parse_cli bare true
      (λ _. missing)
      (text "/etc/imud.conf")
      (text "--config" ∷ text "my.conf" ∷ [])
    ≡ go_on (text "my.conf")
unfolding bridge_parse_cli parse_args checked same_bytes
another_config = refl
