-- ===== src/Config/Fields.antt =====
-- include/config.h: `imud_config_t`. The struct has some hundred and fifty fields of a few C types,
-- so a field is a constructor of the type that lists the fields of its C type, and the struct is a
-- function from each such type. A float or a double is its bit pattern; a `char[]` is the text in it,
-- without the NUL.
use imud.Prelude.{ℕ, Bool}
use imud.Prelude.Int.{ℤ}
use imud.Types.{Vec3, Mat3}
use imud.Wire.{Bytes}
use mathlib.Core.Logic.{ite}

-- The `char[]` fields.
pub data StrField : Type 0 where
  i2c_bus gpio_chip sim_file pid_file status_socket capture_dir imu_driver : StrField
  imu_spi_dev mag_driver mag_spi_dev cal_file nmea_dest_addr nmea_tcp_bind_addr : StrField
  highrate_dest_addr highrate_coord_frame stream_socket stream_tcp_bind_addr : StrField
  sk_dest_addr sk_source_label sk_tcp_bind_addr mqtt_broker_addr mqtt_client_id : StrField
  mqtt_topic_prefix mqtt_units mqtt_username mqtt_password mqtt_tls_cafile : StrField
  mqtt_ha_prefix influx_transport influx_measurement influx_source_label : StrField
  influx_units influx_detail influx_udp_addr influx_http_host influx_http_path : StrField
  influx_http_token prom_listen_addr mav_udp_addr mav_serial_device : StrField
  mav_tcp_bind_addr log_level log_file pos_wmm_file pos_gpsd_host : StrField
  pos_signalk_host pos_signalk_path mount_preset : StrField

unfoldable pub StrField-discrete : Discrete StrField
StrField-discrete = hlevel

-- The `int` fields.
pub data IntField : Type 0 where
  capture_max_mb capture_max_files capture_flush_s imu_spi_speed_hz imu_addr : IntField
  imu_int_gpio imu_odr_mhz imu_accel_g imu_gyro_dps imu_fifo_wm imu_int_grace : IntField
  imu_poll_ms mag_spi_speed_hz mag_addr mag_int_gpio mag_int_grace mag_poll_ms : IntField
  mag_odr_mhz nmea_rate_hz nmea_dest_port nmea_tcp_port highrate_rate_hz : IntField
  highrate_dest_port stream_rate_hz stream_tcp_port sk_dest_port sk_rate_hz : IntField
  sk_tcp_port mqtt_broker_port mqtt_rate_hz mqtt_qos mqtt_keepalive_s : IntField
  influx_rate_hz influx_udp_port influx_http_port prom_listen_port mav_version : IntField
  mav_system_id mav_component_id mav_rate_hz mav_udp_port mav_serial_baud : IntField
  mav_tcp_port log_stats_hz pos_gpsd_port pos_signalk_port : IntField

unfoldable pub IntField-discrete : Discrete IntField
IntField-discrete = hlevel

-- The `bool` fields.
pub data BoolField : Type 0 where
  sim_loop capture_enabled mag_yaw_only mag_fuse_uncal nmea_enabled : BoolField
  nmea_tcp_enabled highrate_enabled stream_enabled stream_tcp_enabled sk_enabled : BoolField
  sk_udp_enabled sk_tcp_enabled publish_heave mqtt_enabled mqtt_broker_enabled : BoolField
  mqtt_retain mqtt_tls mqtt_ha_discovery influx_enabled influx_udp_enabled : BoolField
  influx_http_enabled prom_enabled prom_http_enabled mav_enabled : BoolField
  mav_send_attitude mav_send_attitude_quaternion mav_udp_enabled : BoolField
  mav_serial_enabled mav_tcp_enabled pos_declination_valid pos_mref_valid : BoolField
  pos_speed_valid pos_gpsd_enabled pos_signalk_enabled mount_set : BoolField

unfoldable pub BoolField-discrete : Discrete BoolField
BoolField-discrete = hlevel

-- The `float` fields.
pub data FloatField : Type 0 where
  sim_speed mag_set_period_s heave_tau_s wave_tau_s pos_declination_deg : FloatField
  pos_mref_h_gauss pos_mref_z_gauss pos_speed_mps pos_fix_max_age_h : FloatField

unfoldable pub FloatField-discrete : Discrete FloatField
FloatField-discrete = hlevel

-- The `double` fields.
pub data DoubleField : Type 0 where
  mag_uncal_reject_frac mekf_gyro_noise mekf_gyro_bias mekf_accel_noise : DoubleField
  mekf_mag_noise mekf_wave_accel mekf_wave_accel_tau_s mekf_mag_dip_sigma_deg : DoubleField
  mag_reject_gauss accel_skip_thresh engine_vibration_g2 : DoubleField
  engine_accel_skip_thresh startup_settle_sec gyro_bias_sec align_window_sec : DoubleField
  pos_lat_deg pos_lon_deg : DoubleField

unfoldable pub DoubleField-discrete : Discrete DoubleField
DoubleField-discrete = hlevel

-- The `bus_kind_t` fields.
pub data KindField : Type 0 where
  imu_bus_kind mag_bus_kind : KindField

unfoldable pub KindField-discrete : Discrete KindField
KindField-discrete = hlevel

-- `bus_kind_t`
pub data BusKind : Type 0 where
  i2c spi : BusKind

-- `mount_euler_deg` and `mount_rot` hold doubles.
pub record Config : Type 0 where
  pub strs : StrField → Bytes
  pub ints : IntField → ℤ
  pub bools : BoolField → Bool
  pub floats : FloatField → ℕ
  pub doubles : DoubleField → ℕ
  pub kinds : KindField → BusKind
  pub euler : Vec3
  pub rot : Mat3

-- The length of each array.
unfoldable pub str_size : StrField → ℕ
str_size i2c_bus = 64
str_size gpio_chip = 32
str_size sim_file = 256
str_size pid_file = 256
str_size status_socket = 108
str_size capture_dir = 256
str_size imu_driver = 32
str_size imu_spi_dev = 64
str_size mag_driver = 32
str_size mag_spi_dev = 64
str_size cal_file = 256
str_size nmea_dest_addr = 64
str_size nmea_tcp_bind_addr = 64
str_size highrate_dest_addr = 64
str_size highrate_coord_frame = 8
str_size stream_socket = 108
str_size stream_tcp_bind_addr = 64
str_size sk_dest_addr = 64
str_size sk_source_label = 32
str_size sk_tcp_bind_addr = 64
str_size mqtt_broker_addr = 64
str_size mqtt_client_id = 64
str_size mqtt_topic_prefix = 64
str_size mqtt_units = 8
str_size mqtt_username = 64
str_size mqtt_password = 128
str_size mqtt_tls_cafile = 256
str_size mqtt_ha_prefix = 64
str_size influx_transport = 8
str_size influx_measurement = 32
str_size influx_source_label = 32
str_size influx_units = 8
str_size influx_detail = 16
str_size influx_udp_addr = 64
str_size influx_http_host = 64
str_size influx_http_path = 192
str_size influx_http_token = 128
str_size prom_listen_addr = 64
str_size mav_udp_addr = 64
str_size mav_serial_device = 64
str_size mav_tcp_bind_addr = 64
str_size log_level = 16
str_size log_file = 256
str_size pos_wmm_file = 256
str_size pos_gpsd_host = 64
str_size pos_signalk_host = 64
str_size pos_signalk_path = 128
str_size mount_preset = 32

-- `cfg->field = v`
unfoldable pub set_str : Config → StrField → Bytes → Config
set_str c f v = record c { strs = λ g. ite (StrField-discrete f g) v (c.strs g) }

unfoldable pub set_int : Config → IntField → ℤ → Config
set_int c f v = record c { ints = λ g. ite (IntField-discrete f g) v (c.ints g) }

unfoldable pub set_bool : Config → BoolField → Bool → Config
set_bool c f v = record c { bools = λ g. ite (BoolField-discrete f g) v (c.bools g) }

unfoldable pub set_float : Config → FloatField → ℕ → Config
set_float c f v = record c { floats = λ g. ite (FloatField-discrete f g) v (c.floats g) }

unfoldable pub set_double : Config → DoubleField → ℕ → Config
set_double c f v = record c { doubles = λ g. ite (DoubleField-discrete f g) v (c.doubles g) }

unfoldable pub set_kind : Config → KindField → BusKind → Config
set_kind c f v = record c { kinds = λ g. ite (KindField-discrete f g) v (c.kinds g) }
