-- ===== src/Config/Result.antt =====
-- src/config.c: what a successful load promises of the two buses.
use imud.Prelude.{
  ◌≡◌, ◌≢◌, refl, Bool, true, false, not, ◌&&◌, ◌||◌, [], if◌then◌else◌, length, sym, ap,
}
use imud.Prelude.Int.{below}
use imud.Config.Fields.{
  Config, KindField, StrField, i2c, spi, imu_bus_kind, mag_bus_kind, imu_spi_dev, i2c_bus,
  mag_spi_dev, imu_spi_speed_hz, mag_spi_speed_hz,
}
use imud.Config.Values.{Host}
use imud.Config.Load.{
  BusSpec, Source, missing, unreadable, contents, LoadRc, load_ok, err_parse, config_load,
  validate_bus, spi_without_dev, config_imu_bus_spec, config_mag_bus_spec, load_lines,
  resolve_wmm_file,
}
use imud.Config.Rules.{none_yet}
use mathlib.Core.Bool.{true≢false, false≢true}

-- A bus on SPI has a device node.
abbrev pub HasNode : BusSpec → Type 0
HasNode spec = spec.kind ≡ spi → spec.node ≢ []

is_load_ok : LoadRc → Bool
is_load_ok load_ok = true
is_load_ok _ = false

valid_bus :
    (valid failed : Bool)
    → (if not valid || failed then err_parse else load_ok) ≡ load_ok
    → valid ≡ true
unfolding is_load_ok
valid_bus true failed e = refl
valid_bus false failed e = absurd (true≢false (sym (ap is_load_ok e)))

and_left : (a b : Bool) → (a && b) ≡ true → a ≡ true
and_left true b h = refl
and_left false b h = h

and_right : (a b : Bool) → (a && b) ≡ true → b ≡ true
and_right true b h = h
and_right false b h = absurd (true≢false (sym h))

spi_without_dev_lem :
    (cfg : Config) (kind : KindField) (dev : StrField)
    → not (spi_without_dev cfg kind dev) ≡ true
    → cfg.kinds kind ≡ spi
    → cfg.strs dev ≢ []
unfolding spi_without_dev
spi_without_dev_lem cfg kind dev e on_spi empty =
    absurd (false≢true (rw (spi_without_dev, on_spi, empty) at e))

-- The node of either bus.
has_node :
    (cfg : Config) (kind : KindField) (dev : StrField)
    → not (spi_without_dev cfg kind dev) ≡ true
    → cfg.kinds kind ≡ spi
    → (elim (cfg.kinds kind) [ spi ↦ cfg.strs dev | i2c ↦ cfg.strs i2c_bus ]) ≢ []
has_node cfg kind dev e on_spi = rw on_spi (spi_without_dev_lem cfg kind dev e on_spi)

negation : (b : Bool) → not b ≡ true → b ≡ false
negation true e = sym e
negation false e = refl

validate_bus_lem :
    (cfg : Config)
    → validate_bus cfg ≡ true
    → HasNode (config_imu_bus_spec cfg)
      × HasNode (config_mag_bus_spec cfg)
      × (below (cfg.ints imu_spi_speed_hz) 0 ≡ false)
      × (below (cfg.ints mag_spi_speed_hz) 0 ≡ false)
unfolding validate_bus config_imu_bus_spec config_mag_bus_spec
validate_bus_lem cfg e =
    let imu_ok = not (spi_without_dev cfg imu_bus_kind imu_spi_dev) in
    let mag_ok = not (spi_without_dev cfg mag_bus_kind mag_spi_dev) in
    let imu_hz = not (below (cfg.ints imu_spi_speed_hz) 0) in
    let mag_hz = not (below (cfg.ints mag_spi_speed_hz) 0) in
    let three = and_left (imu_ok && mag_ok && imu_hz) mag_hz e in
    let two = and_left (imu_ok && mag_ok) imu_hz three in
    (
      has_node cfg imu_bus_kind imu_spi_dev (and_left imu_ok mag_ok two),
      has_node cfg mag_bus_kind mag_spi_dev (and_right imu_ok mag_ok two),
      negation (below (cfg.ints imu_spi_speed_hz) 0) (and_right (imu_ok && mag_ok) imu_hz three),
      negation (below (cfg.ints mag_spi_speed_hz) 0)
          (and_right (imu_ok && mag_ok && imu_hz) mag_hz e),
    )

-- Whatever the file, where `config_load` returns success, each sensor whose bus is SPI has a device
-- node in the bus that `config_imu_bus_spec` and `config_mag_bus_spec` give, and neither SPI clock is
-- negative.
pub config_load-HasNode :
    (host : Host) (etc_readable : Bool) (file : Source) (cfg : Config)
    → (config_load host etc_readable file cfg).1 ≡ load_ok
    → HasNode (config_imu_bus_spec (config_load host etc_readable file cfg).0)
      × HasNode (config_mag_bus_spec (config_load host etc_readable file cfg).0)
      × (below ((config_load host etc_readable file cfg).0.ints imu_spi_speed_hz) 0 ≡ false)
      × (below ((config_load host etc_readable file cfg).0.ints mag_spi_speed_hz) 0 ≡ false)
unfolding config_load is_load_ok
config_load-HasNode host etc_readable missing cfg e = absurd (true≢false (sym (ap is_load_ok e)))
config_load-HasNode host etc_readable unreadable cfg e = absurd (true≢false (sym (ap is_load_ok e)))
config_load-HasNode host etc_readable (contents f) cfg e =
    let st = load_lines host (length f) f (record { cfg = cfg; sec = none_yet; failed = false }) in
    let cfg' = resolve_wmm_file etc_readable st.cfg in
    validate_bus_lem cfg' (valid_bus (validate_bus cfg') st.failed e)
