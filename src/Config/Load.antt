-- ===== src/Config/Load.antt =====
-- src/config.c: `config_load` and what it does with each line, and the functions on a configuration
-- that was loaded. Log lines are not part of the model.
use imud.Prelude.{
  ℕ, zero, suc, ◌-◌, ◌%◌, ◌^◌, Bool, true, false, not, ◌&&◌, ◌||◌, List, [], ◌∷◌, ◌++◌, Option,
  none, some, length, take, if◌then◌else◌,
}
use imud.Prelude.Int.{ℤ, pos, negsuc, below, above}
use imud.Prelude.Text.{text, is, same_bytes}
use imud.Wire.{Bytes}
use imud.Config.Fields.{
  Config, StrField, IntField, BoolField, FloatField, DoubleField, KindField, BusKind, i2c, i2c_bus,
  imu_spi_dev, mag_spi_dev, influx_transport, log_level, pos_wmm_file, imu_spi_speed_hz, imu_addr,
  mag_spi_speed_hz, mag_addr, nmea_rate_hz, highrate_rate_hz, stream_rate_hz, log_stats_hz,
  mag_yaw_only, mag_fuse_uncal, influx_udp_enabled, influx_http_enabled, pos_declination_valid,
  pos_mref_valid, heave_tau_s, wave_tau_s, pos_declination_deg, pos_mref_h_gauss, pos_mref_z_gauss,
  mag_uncal_reject_frac, mekf_gyro_noise, mekf_gyro_bias, mekf_accel_noise, mekf_mag_noise,
  mekf_wave_accel, mekf_wave_accel_tau_s, mekf_mag_dip_sigma_deg, mag_reject_gauss,
  accel_skip_thresh, engine_vibration_g2, engine_accel_skip_thresh, imu_bus_kind, mag_bus_kind, spi,
  set_str, set_int, set_bool, set_float, set_double, str_size,
}
use imud.Config.Lines.{Line, blank, no_eq, empty_key, header, entry, fgets, read_line}
use imud.Config.Values.{
  Host, Rule, need_str, need_topic, need_frame, need_bool, need_int, need_pos_int, need_pos_mhz,
  need_range_int, need_flt, need_dbl, need_pos_dbl, need_range_dbl, need_bus_kind, need_declination,
  mount_euler, mount_matrix, mount_preset_key, warn_unknown, Applied, apply_str, apply_topic,
  apply_frame, apply_bus_kind, apply_int, apply_mhz, apply_double, apply_float, apply_bool,
}
use imud.Config.Mount.{apply_euler, apply_matrix, apply_preset}
use imud.Config.Rules.{Section, none_yet, parse_section, rule_for}

-- `NEED_FLT(cfg->pos_declination_deg)` and the flag that goes with it.
unfoldable pub apply_declination : Host → Config → Bytes → Applied
apply_declination host cfg val =
    let (cfg', ok) = apply_float host cfg pos_declination_deg val in
    if ok
    then (
      set_bool cfg' pos_declination_valid (host.is_nonzero (cfg'.floats pos_declination_deg)),
      true,
    )
    else (cfg', false)

unfoldable pub apply_rule : Host → Config → Rule → Bytes → Applied
apply_rule host cfg (need_str f) val = apply_str host cfg f val
apply_rule host cfg (need_topic f) val = apply_topic host cfg f val
apply_rule host cfg (need_frame f) val = apply_frame host cfg f val
apply_rule host cfg (need_bool f) val = apply_bool cfg f val
apply_rule host cfg (need_int f) val = apply_int host cfg f val (λ _. true)
apply_rule host cfg (need_pos_int f) val = apply_int host cfg f val (λ v. above v 0)
apply_rule host cfg (need_pos_mhz f) val = apply_mhz host cfg f val
apply_rule host cfg (need_range_int f lo hi) val =
    apply_int host cfg f val (λ v. not (below v lo || above v hi))
apply_rule host cfg (need_flt f) val = apply_float host cfg f val
apply_rule host cfg (need_dbl f) val = apply_double host cfg f val (λ _. true)
apply_rule host cfg (need_pos_dbl f) val = apply_double host cfg f val (λ v. host.less 0 v)
apply_rule host cfg (need_range_dbl f lo hi) val =
    apply_double host cfg f val (λ v. not (host.less v lo || host.less hi v))
apply_rule host cfg (need_bus_kind f) val = apply_bus_kind host cfg f val
apply_rule host cfg need_declination val = apply_declination host cfg val
apply_rule host cfg mount_euler val = apply_euler host cfg val
apply_rule host cfg mount_matrix val = apply_matrix host cfg val
apply_rule host cfg mount_preset_key val = apply_preset host cfg val
apply_rule host cfg warn_unknown val = (cfg, true)

unfoldable pub apply_kv : Host → Config → Section → Bytes → Bytes → Applied
apply_kv host cfg sec key val = apply_rule host cfg (rule_for sec key) val

-- The variables of the loop; `failed` says that `rc` is `CONFIG_ERR_PARSE`.
pub record Loading : Type 0 where
  pub cfg : Config
  pub sec : Section
  pub failed : Bool

unfoldable pub load_line : Host → Loading → Line → Loading
load_line host st blank = st
load_line host st no_eq = st
load_line host st empty_key = st
load_line host st (header name) = record st { sec = parse_section name }
load_line host st (entry key val) =
    let (cfg', ok) = apply_kv host st.cfg st.sec key val in
    record st { cfg = cfg'; failed = not ok || st.failed }

-- `while (fgets(line, sizeof(line), f))`. A round takes a byte or more, so the file's length is
-- enough rounds.
unfoldable pub load_lines : Host → ℕ → Bytes → Loading → Loading
load_lines host zero f st = st
load_lines host (suc rounds) [] st = st
load_lines host (suc rounds) (c ∷ f) st =
    let (line, rest) = fgets 511 (c ∷ f) in
    load_lines host rounds rest (load_line host st (read_line line))

-- `resolve_wmm_file`, with what `access` finds of the file in $(ETCDIR). 255 bytes fit.
unfoldable pub resolve_wmm_file : Bool → Config → Config
resolve_wmm_file etc_readable cfg = elim (cfg.strs pos_wmm_file) [
  | _ ∷ _ ↦ cfg
  | [] ↦
      set_str cfg pos_wmm_file
        (if etc_readable then text "/etc/imud/WMM.COF" else text "/usr/local/share/imud/WMM.COF")
]

-- Whether a sensor is on SPI with no device.
unfoldable pub spi_without_dev : Config → KindField → StrField → Bool
spi_without_dev cfg kind dev = elim (cfg.kinds kind) [
  | i2c ↦ false
  | spi ↦ elim (cfg.strs dev) [ [] ↦ true | _ ∷ _ ↦ false ]
]

-- `validate_bus(cfg, path) == 0`
unfoldable pub validate_bus : Config → Bool
validate_bus cfg =
    not (spi_without_dev cfg imu_bus_kind imu_spi_dev)
    && not (spi_without_dev cfg mag_bus_kind mag_spi_dev)
    && not (below (cfg.ints imu_spi_speed_hz) 0)
    && not (below (cfg.ints mag_spi_speed_hz) 0)

-- What `fopen` finds: ENOENT, another error, or the file.
pub data Source : Type 0 where
  missing unreadable : Source
  contents : Bytes → Source

-- 0, `CONFIG_ERR_OPEN`, `CONFIG_ERR_PARSE` and `CONFIG_ERR_PERM`.
pub data LoadRc : Type 0 where
  load_ok err_open err_parse err_perm : LoadRc

unfoldable pub config_load : Host → Bool → Source → Config → Config × LoadRc
config_load host etc_readable missing cfg = (resolve_wmm_file etc_readable cfg, err_open)
config_load host etc_readable unreadable cfg = (resolve_wmm_file etc_readable cfg, err_perm)
config_load host etc_readable (contents f) cfg =
    let st = load_lines host (length f) f (record { cfg = cfg; sec = none_yet; failed = false }) in
    let cfg' = resolve_wmm_file etc_readable st.cfg in
    (cfg', if not (validate_bus cfg') || st.failed then err_parse else load_ok)

-- `config_load_resolved`: the configuration, the path in `loaded`, and the result.
unfoldable pub config_load_resolved :
    Host → Bool → (Bytes → Source) → Bytes → Option Bytes → Config → Config × Bytes × LoadRc
config_load_resolved host etc_readable files sys_path (some path) cfg =
    let (cfg', rc) = config_load host etc_readable (files path) cfg in (cfg', path, rc)
config_load_resolved host etc_readable files sys_path none cfg =
    let (cfg', rc) = config_load host etc_readable (files sys_path) cfg in
    let alt : Bytes = elim host.home [
      | some home ↦ take 255 (home ++ text "/.config/imud/imud.conf")
      | none ↦ take 255 sys_path
    ] in
    let (cfg'', alt_rc) = config_load host etc_readable (files alt) cfg' in
    elim rc [
      | load_ok ↦ (cfg', sys_path, load_ok)
      | err_parse ↦ (cfg', sys_path, err_parse)
      | err_perm ↦ (cfg', sys_path, err_perm)
      | err_open ↦ if same_bytes sys_path alt then (cfg', sys_path, err_open) else elim alt_rc [
        | err_open ↦ (cfg'', sys_path, err_open)
        | load_ok ↦ (cfg'', alt, load_ok)
        | err_parse ↦ (cfg'', alt, err_parse)
        | err_perm ↦ (cfg'', alt, err_perm)
      ]
    ]

-- The legacy `transport` key, where neither of the new ones is set; and whether it was mapped.
unfoldable pub config_apply_influx_transport_compat : Config → Config × Bool
config_apply_influx_transport_compat cfg =
    if cfg.bools influx_udp_enabled || cfg.bools influx_http_enabled
    then (cfg, false)
    else if is (cfg.strs influx_transport) "http"
    then (set_bool cfg influx_http_enabled true, true)
    else if is (cfg.strs influx_transport) "udp"
    then (set_bool cfg influx_udp_enabled true, true)
    else (cfg, false)

-- The fields that a reload copies, by their types.
abbrev pub hot_ints : List IntField
hot_ints = nmea_rate_hz ∷ highrate_rate_hz ∷ stream_rate_hz ∷ log_stats_hz ∷ []

abbrev pub hot_strs : List StrField
hot_strs = log_level ∷ pos_wmm_file ∷ []

abbrev pub hot_bools : List BoolField
hot_bools = mag_yaw_only ∷ mag_fuse_uncal ∷ pos_declination_valid ∷ pos_mref_valid ∷ []

abbrev pub hot_doubles : List DoubleField
hot_doubles =
    mag_uncal_reject_frac ∷ mekf_gyro_noise ∷ mekf_gyro_bias ∷ mekf_accel_noise ∷ mekf_mag_noise
    ∷ mekf_wave_accel ∷ mekf_wave_accel_tau_s ∷ mekf_mag_dip_sigma_deg ∷ mag_reject_gauss
    ∷ accel_skip_thresh ∷ engine_vibration_g2 ∷ engine_accel_skip_thresh ∷ []

abbrev pub hot_floats : List FloatField
hot_floats =
    heave_tau_s ∷ wave_tau_s ∷ pos_declination_deg ∷ pos_mref_h_gauss ∷ pos_mref_z_gauss ∷ []

-- `dst->field = src->field`, for each field of a list. A string that fits one fits the other.
unfoldable pub copy_strs : List StrField → Config → Config → Config
copy_strs [] src dst = dst
copy_strs (f ∷ fs) src dst = copy_strs fs src (set_str dst f (take (str_size f - 1) (src.strs f)))

unfoldable pub copy_ints : List IntField → Config → Config → Config
copy_ints [] src dst = dst
copy_ints (f ∷ fs) src dst = copy_ints fs src (set_int dst f (src.ints f))

unfoldable pub copy_bools : List BoolField → Config → Config → Config
copy_bools [] src dst = dst
copy_bools (f ∷ fs) src dst = copy_bools fs src (set_bool dst f (src.bools f))

unfoldable pub copy_doubles : List DoubleField → Config → Config → Config
copy_doubles [] src dst = dst
copy_doubles (f ∷ fs) src dst = copy_doubles fs src (set_double dst f (src.doubles f))

unfoldable pub copy_floats : List FloatField → Config → Config → Config
copy_floats [] src dst = dst
copy_floats (f ∷ fs) src dst = copy_floats fs src (set_float dst f (src.floats f))

-- `config_apply_hot(dst, src)`, with the source first.
unfoldable pub config_apply_hot : Config → Config → Config
config_apply_hot src dst = copy_doubles hot_doubles src (
    copy_floats hot_floats src
      (copy_bools hot_bools src (copy_ints hot_ints src (copy_strs hot_strs src dst))))

-- `bus_spec_t`
pub record BusSpec : Type 0 where
  pub kind : BusKind
  pub node : Bytes
  pub i2c_addr : ℕ
  pub spi_hz : ℕ

-- `(uint8_t)v` and `(uint32_t)v` of an `int`.
unfoldable pub to_unsigned : ℕ → ℤ → ℕ
to_unsigned bits (pos v) = v % 2 ^ bits
to_unsigned bits (negsuc v) = 2 ^ bits - 1 - v % 2 ^ bits

abbrev pub bus_spec : Config → KindField → StrField → IntField → IntField → BusSpec
bus_spec cfg kind dev addr speed = record {
  kind = cfg.kinds kind;
  node = elim (cfg.kinds kind) [ spi ↦ cfg.strs dev | i2c ↦ cfg.strs i2c_bus ];
  i2c_addr = to_unsigned 8 (cfg.ints addr);
  spi_hz = to_unsigned 32 (cfg.ints speed);
}

unfoldable pub config_imu_bus_spec : Config → BusSpec
config_imu_bus_spec cfg = bus_spec cfg imu_bus_kind imu_spi_dev imu_addr imu_spi_speed_hz

unfoldable pub config_mag_bus_spec : Config → BusSpec
config_mag_bus_spec cfg = bus_spec cfg mag_bus_kind mag_spi_dev mag_addr mag_spi_speed_hz
