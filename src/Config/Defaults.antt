-- ===== src/Config/Defaults.antt =====
-- src/config.c, `config_defaults`. The paths are those of include/paths.h where the build sets no
-- other.
use imud.Prelude.{ℕ, Bool, true, false}
use imud.Prelude.Int.{ℤ, pos}
use imud.Prelude.Text.{text}
use imud.Types.{blank_vec}
use imud.Wire.{Bytes}
use imud.Config.Fields.{
  Config, StrField, IntField, BoolField, FloatField, DoubleField, i2c, i2c_bus, gpio_chip, sim_file,
  pid_file, status_socket, capture_dir, imu_driver, imu_spi_dev, mag_driver, mag_spi_dev, cal_file,
  nmea_dest_addr, nmea_tcp_bind_addr, highrate_dest_addr, highrate_coord_frame, stream_socket,
  stream_tcp_bind_addr, sk_dest_addr, sk_source_label, sk_tcp_bind_addr, mqtt_broker_addr,
  mqtt_client_id, mqtt_topic_prefix, mqtt_units, mqtt_username, mqtt_password, mqtt_tls_cafile,
  mqtt_ha_prefix, influx_transport, influx_measurement, influx_source_label, influx_units,
  influx_detail, influx_udp_addr, influx_http_host, influx_http_path, influx_http_token,
  prom_listen_addr, mav_udp_addr, mav_serial_device, mav_tcp_bind_addr, log_level, log_file,
  pos_wmm_file, pos_gpsd_host, pos_signalk_host, pos_signalk_path, mount_preset, capture_max_mb,
  capture_max_files, capture_flush_s, imu_spi_speed_hz, imu_addr, imu_int_gpio, imu_odr_mhz,
  imu_accel_g, imu_gyro_dps, imu_fifo_wm, imu_int_grace, imu_poll_ms, mag_spi_speed_hz, mag_addr,
  mag_int_gpio, mag_int_grace, mag_poll_ms, mag_odr_mhz, nmea_rate_hz, nmea_dest_port,
  nmea_tcp_port, highrate_rate_hz, highrate_dest_port, stream_rate_hz, stream_tcp_port,
  sk_dest_port, sk_rate_hz, sk_tcp_port, mqtt_broker_port, mqtt_rate_hz, mqtt_qos, mqtt_keepalive_s,
  influx_rate_hz, influx_udp_port, influx_http_port, prom_listen_port, mav_version, mav_system_id,
  mav_component_id, mav_rate_hz, mav_udp_port, mav_serial_baud, mav_tcp_port, log_stats_hz,
  pos_gpsd_port, pos_signalk_port, sim_loop, capture_enabled, mag_yaw_only, mag_fuse_uncal,
  nmea_enabled, nmea_tcp_enabled, highrate_enabled, stream_enabled, stream_tcp_enabled, sk_enabled,
  sk_udp_enabled, sk_tcp_enabled, publish_heave, mqtt_enabled, mqtt_broker_enabled, mqtt_retain,
  mqtt_tls, mqtt_ha_discovery, influx_enabled, influx_udp_enabled, influx_http_enabled,
  prom_enabled, prom_http_enabled, mav_enabled, mav_send_attitude, mav_send_attitude_quaternion,
  mav_udp_enabled, mav_serial_enabled, mav_tcp_enabled, pos_declination_valid, pos_mref_valid,
  pos_speed_valid, pos_gpsd_enabled, pos_signalk_enabled, mount_set, sim_speed, mag_set_period_s,
  heave_tau_s, wave_tau_s, pos_declination_deg, pos_mref_h_gauss, pos_mref_z_gauss, pos_speed_mps,
  pos_fix_max_age_h, mag_uncal_reject_frac, mekf_gyro_noise, mekf_gyro_bias, mekf_accel_noise,
  mekf_mag_noise, mekf_wave_accel, mekf_wave_accel_tau_s, mekf_mag_dip_sigma_deg, mag_reject_gauss,
  accel_skip_thresh, engine_vibration_g2, engine_accel_skip_thresh, startup_settle_sec,
  gyro_bias_sec, align_window_sec, pos_lat_deg, pos_lon_deg,
}

unfoldable pub default_str : StrField → Bytes
default_str i2c_bus = text "/dev/i2c-1"
default_str gpio_chip = text "gpiochip0"
default_str sim_file = text ""
default_str pid_file = text ""
default_str status_socket = text ""
default_str capture_dir = text "/var/lib/imud"
default_str imu_driver = text "ism330dhcx"
default_str imu_spi_dev = text ""
default_str mag_driver = text "mmc5983ma"
default_str mag_spi_dev = text ""
default_str cal_file = text "/etc/imud/cal.json"
default_str nmea_dest_addr = text "255.255.255.255"
default_str nmea_tcp_bind_addr = text "0.0.0.0"
default_str highrate_dest_addr = text "239.255.0.1"
default_str highrate_coord_frame = text "NED"
default_str stream_socket = text "/run/imud/imud-stream.sock"
default_str stream_tcp_bind_addr = text "0.0.0.0"
default_str sk_dest_addr = text "127.0.0.1"
default_str sk_source_label = text "imud"
default_str sk_tcp_bind_addr = text "0.0.0.0"
default_str mqtt_broker_addr = text "127.0.0.1"
default_str mqtt_client_id = text "imud"
default_str mqtt_topic_prefix = text "imud"
default_str mqtt_units = text "deg"
default_str mqtt_username = text ""
default_str mqtt_password = text ""
default_str mqtt_tls_cafile = text ""
default_str mqtt_ha_prefix = text "homeassistant"
default_str influx_transport = text ""
default_str influx_measurement = text "imud"
default_str influx_source_label = text "imud"
default_str influx_units = text "deg"
default_str influx_detail = text "health"
default_str influx_udp_addr = text "127.0.0.1"
default_str influx_http_host = text "127.0.0.1"
default_str influx_http_path = text "/write?db=imud&precision=ns"
default_str influx_http_token = text ""
default_str prom_listen_addr = text "127.0.0.1"
default_str mav_udp_addr = text "127.0.0.1"
default_str mav_serial_device = text "/dev/serial0"
default_str mav_tcp_bind_addr = text "0.0.0.0"
default_str log_level = text "warn"
default_str log_file = text ""
default_str pos_wmm_file = text ""
default_str pos_gpsd_host = text "localhost"
default_str pos_signalk_host = text "localhost"
default_str pos_signalk_path = text "/signalk/v1/api/vessels/self/navigation/position"
default_str mount_preset = text ""

unfoldable pub default_int : IntField → ℤ
default_int capture_max_mb = pos 256
default_int capture_max_files = pos 8
default_int capture_flush_s = pos 5
default_int imu_spi_speed_hz = pos 0
default_int imu_addr = pos 0x6B
default_int imu_int_gpio = pos 17
default_int imu_odr_mhz = pos 833000
default_int imu_accel_g = pos 8
default_int imu_gyro_dps = pos 2000
default_int imu_fifo_wm = pos 64
default_int imu_int_grace = pos 2
default_int imu_poll_ms = pos 0
default_int mag_spi_speed_hz = pos 0
default_int mag_addr = pos 0x30
default_int mag_int_gpio = pos 27
default_int mag_int_grace = pos 2
default_int mag_poll_ms = pos 0
default_int mag_odr_mhz = pos 100000
default_int nmea_rate_hz = pos 10
default_int nmea_dest_port = pos 10110
default_int nmea_tcp_port = pos 10110
default_int highrate_rate_hz = pos 500
default_int highrate_dest_port = pos 10111
default_int stream_rate_hz = pos 100
default_int stream_tcp_port = pos 10112
default_int sk_dest_port = pos 10113
default_int sk_rate_hz = pos 10
default_int sk_tcp_port = pos 10113
default_int mqtt_broker_port = pos 1883
default_int mqtt_rate_hz = pos 5
default_int mqtt_qos = pos 0
default_int mqtt_keepalive_s = pos 30
default_int influx_rate_hz = pos 10
default_int influx_udp_port = pos 8089
default_int influx_http_port = pos 8086
default_int prom_listen_port = pos 9815
default_int mav_version = pos 2
default_int mav_system_id = pos 1
default_int mav_component_id = pos 1
default_int mav_rate_hz = pos 10
default_int mav_udp_port = pos 14550
default_int mav_serial_baud = pos 57600
default_int mav_tcp_port = pos 5760
default_int log_stats_hz = pos 1
default_int pos_gpsd_port = pos 2947
default_int pos_signalk_port = pos 3000

unfoldable pub default_bool : BoolField → Bool
default_bool sim_loop = false
default_bool capture_enabled = false
default_bool mag_yaw_only = true
default_bool mag_fuse_uncal = true
default_bool nmea_enabled = false
default_bool nmea_tcp_enabled = false
default_bool highrate_enabled = false
default_bool stream_enabled = true
default_bool stream_tcp_enabled = false
default_bool sk_enabled = false
default_bool sk_udp_enabled = false
default_bool sk_tcp_enabled = false
default_bool publish_heave = true
default_bool mqtt_enabled = false
default_bool mqtt_broker_enabled = false
default_bool mqtt_retain = true
default_bool mqtt_tls = false
default_bool mqtt_ha_discovery = true
default_bool influx_enabled = false
default_bool influx_udp_enabled = false
default_bool influx_http_enabled = false
default_bool prom_enabled = false
default_bool prom_http_enabled = false
default_bool mav_enabled = false
default_bool mav_send_attitude = true
default_bool mav_send_attitude_quaternion = true
default_bool mav_udp_enabled = false
default_bool mav_serial_enabled = false
default_bool mav_tcp_enabled = false
default_bool pos_declination_valid = false
default_bool pos_mref_valid = false
default_bool pos_speed_valid = false
default_bool pos_gpsd_enabled = false
default_bool pos_signalk_enabled = false
default_bool mount_set = false

-- As the bit patterns of the literals.
unfoldable pub default_float : FloatField → ℕ
default_float sim_speed = 0x3f800000
default_float mag_set_period_s = 0x40a00000
default_float heave_tau_s = 0x41400000
default_float wave_tau_s = 0x42f00000
default_float pos_declination_deg = 0
default_float pos_mref_h_gauss = 0
default_float pos_mref_z_gauss = 0
default_float pos_speed_mps = 0
default_float pos_fix_max_age_h = 0x41c00000

unfoldable pub default_double : DoubleField → ℕ
default_double mag_uncal_reject_frac = 0x3fd999999999999a
default_double mekf_gyro_noise = 0x3f7cac083126e979
default_double mekf_gyro_bias = 0x3f23a92a30553261
default_double mekf_accel_noise = 0x3f6205bc01a36e2f
default_double mekf_mag_noise = 0x3f3a36e2eb1c432d
default_double mekf_wave_accel = 0x3fe999999999999a
default_double mekf_wave_accel_tau_s = 0x3fe0000000000000
default_double mekf_mag_dip_sigma_deg = 0x3ff0000000000000
default_double mag_reject_gauss = 0x3fa999999999999a
default_double accel_skip_thresh = 0x3fa999999999999a
default_double engine_vibration_g2 = 0
default_double engine_accel_skip_thresh = 0x3fc999999999999a
default_double startup_settle_sec = 0x4014000000000000
default_double gyro_bias_sec = 0x4000000000000000
default_double align_window_sec = 0x4014000000000000
default_double pos_lat_deg = 0
default_double pos_lon_deg = 0

unfoldable pub config_defaults : Config
unfolding default_str default_int default_bool default_float default_double
config_defaults = record {
  strs = default_str;
  ints = default_int;
  bools = default_bool;
  floats = default_float;
  doubles = default_double;
  kinds = λ _. i2c;
  euler = blank_vec;
  rot = record { r0 = blank_vec; r1 = blank_vec; r2 = blank_vec };
}
