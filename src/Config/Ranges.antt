-- ===== src/Config/Ranges.antt =====
-- src/config.c: the values that a configuration may hold: a range for each number whose key has one,
-- and an array's length for each text.
use imud.Prelude.{
  ℕ, ◌-◌, ◌^◌, ◌<◌, ◌≡◌, true, false, Option, none, some, length, take, arith, length-take,
}
use imud.Prelude.Int.{ℤ, Between}
use imud.Wire.{Bytes}
use imud.Config.Values.{Host}
use imud.Config.Fields.{
  Config, StrField, IntField, DoubleField, StrField-discrete, IntField-discrete,
  DoubleField-discrete, str_size, set_str, set_int, set_double, mag_uncal_reject_frac,
  mekf_gyro_noise, mekf_gyro_bias, mekf_accel_noise, mekf_mag_noise, accel_skip_thresh,
  engine_accel_skip_thresh, pos_lat_deg, pos_lon_deg, capture_max_mb, capture_max_files,
  capture_flush_s, imu_spi_speed_hz, imu_addr, imu_int_gpio, imu_odr_mhz, imu_accel_g, imu_gyro_dps,
  imu_fifo_wm, imu_int_grace, imu_poll_ms, mag_spi_speed_hz, mag_addr, mag_int_gpio, mag_int_grace,
  mag_poll_ms, mag_odr_mhz, nmea_rate_hz, nmea_dest_port, nmea_tcp_port, highrate_rate_hz,
  highrate_dest_port, stream_rate_hz, stream_tcp_port, sk_dest_port, sk_rate_hz, sk_tcp_port,
  mqtt_broker_port, mqtt_rate_hz, mqtt_qos, mqtt_keepalive_s, influx_rate_hz, influx_udp_port,
  influx_http_port, prom_listen_port, mav_version, mav_system_id, mav_component_id, mav_rate_hz,
  mav_udp_port, mav_serial_baud, mav_tcp_port, log_stats_hz, pos_gpsd_port, pos_signalk_port,
  i2c_bus, gpio_chip, sim_file, pid_file, status_socket, capture_dir, imu_driver, imu_spi_dev,
  mag_driver, mag_spi_dev, cal_file, nmea_dest_addr, nmea_tcp_bind_addr, highrate_dest_addr,
  highrate_coord_frame, stream_socket, stream_tcp_bind_addr, sk_dest_addr, sk_source_label,
  sk_tcp_bind_addr, mqtt_broker_addr, mqtt_client_id, mqtt_topic_prefix, mqtt_units, mqtt_username,
  mqtt_password, mqtt_tls_cafile, mqtt_ha_prefix, influx_transport, influx_measurement,
  influx_source_label, influx_units, influx_detail, influx_udp_addr, influx_http_host,
  influx_http_path, influx_http_token, prom_listen_addr, mav_udp_addr, mav_serial_device,
  mav_tcp_bind_addr, log_level, log_file, pos_wmm_file, pos_gpsd_host, pos_signalk_host,
  pos_signalk_path, mount_preset,
}
use mathlib.Core.Logic.{ite}
use mathlib.Core.Path.{subst}

-- The bounds that the key's macro holds a field to; none for NEED_INT's, nor for the two that
-- NEED_POS_MHZ sets: it stores the rate in mHz before it tests it, so a rate that rounds to 0 is
-- rejected and stays.
unfoldable pub int_range : IntField → Option (ℕ × ℕ)
int_range capture_max_mb = none
int_range capture_max_files = none
int_range capture_flush_s = none
int_range imu_spi_speed_hz = none
int_range imu_addr = some (0, 127)
int_range imu_int_gpio = some (0, 255)
int_range imu_odr_mhz = none
int_range imu_accel_g = none
int_range imu_gyro_dps = none
int_range imu_fifo_wm = some (1, 511)
int_range imu_int_grace = some (1, 2 ^ 31 - 1)
int_range imu_poll_ms = none
int_range mag_spi_speed_hz = none
int_range mag_addr = some (0, 127)
int_range mag_int_gpio = some (0, 255)
int_range mag_int_grace = some (1, 2 ^ 31 - 1)
int_range mag_poll_ms = none
int_range mag_odr_mhz = none
int_range nmea_rate_hz = some (1, 32000)
int_range nmea_dest_port = some (1, 65535)
int_range nmea_tcp_port = some (1, 65535)
int_range highrate_rate_hz = some (1, 32000)
int_range highrate_dest_port = some (1, 65535)
int_range stream_rate_hz = some (1, 32000)
int_range stream_tcp_port = some (1, 65535)
int_range sk_dest_port = some (1, 65535)
int_range sk_rate_hz = some (1, 32000)
int_range sk_tcp_port = some (1, 65535)
int_range mqtt_broker_port = some (1, 65535)
int_range mqtt_rate_hz = some (1, 32000)
int_range mqtt_qos = some (0, 2)
int_range mqtt_keepalive_s = none
int_range influx_rate_hz = some (1, 32000)
int_range influx_udp_port = some (1, 65535)
int_range influx_http_port = some (1, 65535)
int_range prom_listen_port = some (1, 65535)
int_range mav_version = none
int_range mav_system_id = some (1, 255)
int_range mav_component_id = some (1, 255)
int_range mav_rate_hz = some (1, 32000)
int_range mav_udp_port = some (1, 65535)
int_range mav_serial_baud = none
int_range mav_tcp_port = some (1, 65535)
int_range log_stats_hz = some (1, 100)
int_range pos_gpsd_port = some (1, 65535)
int_range pos_signalk_port = some (1, 65535)

abbrev pub Within : Option (ℕ × ℕ) → ℤ → Type 0
Within none v = Unit
Within (some (lo, hi)) v = Between lo hi v

-- Every number is in its field's range.
abbrev pub InRange : Config → Type 0
InRange cfg = (f : IntField) → Within (int_range f) (cfg.ints f)

-- Every text leaves room for the NUL in its array.
abbrev pub TextsFit : Config → Type 0
TextsFit cfg = (f : StrField) → length (cfg.strs f) < str_size f

-- What a macro holds a `double` to: nothing, to be positive, or to two bounds as bit patterns.
pub data DoubleBound : Type 0 where
  free over_zero : DoubleBound
  between : ℕ → ℕ → DoubleBound

-- The bound that the key's macro holds a field to.
unfoldable pub double_range : DoubleField → DoubleBound
double_range mag_uncal_reject_frac = between 0 0x3ff0000000000000
double_range mekf_gyro_noise = over_zero
double_range mekf_gyro_bias = over_zero
double_range mekf_accel_noise = over_zero
double_range mekf_mag_noise = over_zero
double_range accel_skip_thresh = between 0x3f50624dd2f1a9fc 0x3ff0000000000000
double_range engine_accel_skip_thresh = between 0x3f50624dd2f1a9fc 0x3ff0000000000000
double_range pos_lat_deg = between 0xc056800000000000 0x4056800000000000
double_range pos_lon_deg = between 0xc066800000000000 0x4066800000000000
double_range _ = free

-- The comparisons are the processor's: a NaN is below nothing and nothing is below it.
abbrev pub Holds : Host → DoubleBound → ℕ → Type 0
Holds host free v = Unit
Holds host over_zero v = host.less 0 v ≡ true
Holds host (between lo hi) v = (host.less v lo ≡ false) × (host.less hi v ≡ false)

-- What each `double` is asked to be.
abbrev pub Doubles : Type 1
Doubles = DoubleField → ℕ → Type 0

abbrev pub held : Host → Doubles
held host f v = Holds host (double_range f) v

abbrev pub unasked : Doubles
unasked _ _ = Unit

abbrev pub DoublesAre : Doubles → Config → Type 0
DoublesAre asked cfg = (f : DoubleField) → asked f (cfg.doubles f)

abbrev pub WellFormed : Doubles → Config → Type 0
WellFormed asked cfg = InRange cfg × (TextsFit cfg × DoublesAre asked cfg)

-- What both branches have, the choice has.
ite_both {ℓ ℓ' ℓ''} :
    {P : Type ℓ} {C : Type ℓ'} (d : Dec P) (Q : C → Type ℓ'') (a b : C)
    → (P → Q a)
    → Q b
    → Q (ite d a b)
ite_both (yes p) Q a b qa qb = qa p
ite_both (no _) Q a b qa qb = qb

pub set_int-InRange :
    (cfg : Config) (f : IntField) (v : ℤ)
    → InRange cfg
    → Within (int_range f) v
    → InRange (set_int cfg f v)
unfolding set_int
set_int-InRange cfg f v ok within g =
    ite_both (IntField-discrete f g) (Within (int_range g)) v (cfg.ints g)
      (λ e. subst (λ g'. Within (int_range g') v) e within) (ok g)

pub set_str-TextsFit :
    (cfg : Config) (f : StrField) (v : Bytes)
    → TextsFit cfg
    → length v < str_size f
    → TextsFit (set_str cfg f v)
unfolding set_str
set_str-TextsFit cfg f v ok fits g =
    ite_both (StrField-discrete f g) (λ s. length s < str_size g) v (cfg.strs g)
      (λ e. subst (λ g'. length v < str_size g') e fits) (ok g)

pub set_double-DoublesAre :
    (asked : Doubles) (cfg : Config) (f : DoubleField) (v : ℕ)
    → DoublesAre asked cfg
    → asked f v
    → DoublesAre asked (set_double cfg f v)
unfolding set_double
set_double-DoublesAre asked cfg f v ok good g =
    ite_both (DoubleField-discrete f g) (asked g) v (cfg.doubles g)
      (λ e. subst (λ g'. asked g' v) e good) (ok g)

-- No array is empty.
pub str_size_pos : (f : StrField) → 0 < str_size f
unfolding str_size
str_size_pos i2c_bus = omega arith
str_size_pos gpio_chip = omega arith
str_size_pos sim_file = omega arith
str_size_pos pid_file = omega arith
str_size_pos status_socket = omega arith
str_size_pos capture_dir = omega arith
str_size_pos imu_driver = omega arith
str_size_pos imu_spi_dev = omega arith
str_size_pos mag_driver = omega arith
str_size_pos mag_spi_dev = omega arith
str_size_pos cal_file = omega arith
str_size_pos nmea_dest_addr = omega arith
str_size_pos nmea_tcp_bind_addr = omega arith
str_size_pos highrate_dest_addr = omega arith
str_size_pos highrate_coord_frame = omega arith
str_size_pos stream_socket = omega arith
str_size_pos stream_tcp_bind_addr = omega arith
str_size_pos sk_dest_addr = omega arith
str_size_pos sk_source_label = omega arith
str_size_pos sk_tcp_bind_addr = omega arith
str_size_pos mqtt_broker_addr = omega arith
str_size_pos mqtt_client_id = omega arith
str_size_pos mqtt_topic_prefix = omega arith
str_size_pos mqtt_units = omega arith
str_size_pos mqtt_username = omega arith
str_size_pos mqtt_password = omega arith
str_size_pos mqtt_tls_cafile = omega arith
str_size_pos mqtt_ha_prefix = omega arith
str_size_pos influx_transport = omega arith
str_size_pos influx_measurement = omega arith
str_size_pos influx_source_label = omega arith
str_size_pos influx_units = omega arith
str_size_pos influx_detail = omega arith
str_size_pos influx_udp_addr = omega arith
str_size_pos influx_http_host = omega arith
str_size_pos influx_http_path = omega arith
str_size_pos influx_http_token = omega arith
str_size_pos prom_listen_addr = omega arith
str_size_pos mav_udp_addr = omega arith
str_size_pos mav_serial_device = omega arith
str_size_pos mav_tcp_bind_addr = omega arith
str_size_pos log_level = omega arith
str_size_pos log_file = omega arith
str_size_pos pos_wmm_file = omega arith
str_size_pos pos_gpsd_host = omega arith
str_size_pos pos_signalk_host = omega arith
str_size_pos pos_signalk_path = omega arith
str_size_pos mount_preset = omega arith

pub length-take_fits : (f : StrField) (s : Bytes) → length (take (str_size f - 1) s) < str_size f
length-take_fits f s = omega (arith, length-take (str_size f - 1) s, str_size_pos f)
