-- ===== src/Config/Hot.antt =====
-- src/config.c and include/config.h: the fields that a reload takes from the file that was read
-- again, `config_apply_hot`, and those that it leaves to a restart.
use imud.Prelude.{◌-◌, ◌≡◌, refl, Bool, true, false, if◌then◌else◌, take, arith, take-all, ◌∙◌, ap}
use imud.Config.Fields.{
  Config, StrField, IntField, BoolField, FloatField, DoubleField, StrField-discrete,
  IntField-discrete, BoolField-discrete, FloatField-discrete, DoubleField-discrete, str_size,
  set_str, set_int, set_bool, set_float, set_double, accel_skip_thresh, engine_accel_skip_thresh,
  engine_vibration_g2, heave_tau_s, highrate_rate_hz, log_level, log_stats_hz, mag_fuse_uncal,
  mag_reject_gauss, mag_uncal_reject_frac, mag_yaw_only, mekf_accel_noise, mekf_gyro_bias,
  mekf_gyro_noise, mekf_mag_dip_sigma_deg, mekf_mag_noise, mekf_wave_accel, mekf_wave_accel_tau_s,
  nmea_rate_hz, pos_declination_deg, pos_declination_valid, pos_mref_h_gauss, pos_mref_valid,
  pos_mref_z_gauss, pos_wmm_file, stream_rate_hz, wave_tau_s, i2c_bus, gpio_chip, sim_file,
  pid_file, status_socket, capture_dir, imu_driver, imu_spi_dev, mag_driver, mag_spi_dev, cal_file,
  nmea_dest_addr, nmea_tcp_bind_addr, highrate_dest_addr, highrate_coord_frame, stream_socket,
  stream_tcp_bind_addr, sk_dest_addr, sk_source_label, sk_tcp_bind_addr, mqtt_broker_addr,
  mqtt_client_id, mqtt_topic_prefix, mqtt_units, mqtt_username, mqtt_password, mqtt_tls_cafile,
  mqtt_ha_prefix, influx_transport, influx_measurement, influx_source_label, influx_units,
  influx_detail, influx_udp_addr, influx_http_host, influx_http_path, influx_http_token,
  prom_listen_addr, mav_udp_addr, mav_serial_device, mav_tcp_bind_addr, log_file, pos_gpsd_host,
  pos_signalk_host, pos_signalk_path, mount_preset, capture_max_mb, capture_max_files,
  capture_flush_s, imu_spi_speed_hz, imu_addr, imu_int_gpio, imu_odr_mhz, imu_accel_g, imu_gyro_dps,
  imu_fifo_wm, imu_int_grace, imu_poll_ms, mag_spi_speed_hz, mag_addr, mag_int_gpio, mag_int_grace,
  mag_poll_ms, mag_odr_mhz, nmea_dest_port, nmea_tcp_port, highrate_dest_port, stream_tcp_port,
  sk_dest_port, sk_rate_hz, sk_tcp_port, mqtt_broker_port, mqtt_rate_hz, mqtt_qos, mqtt_keepalive_s,
  influx_rate_hz, influx_udp_port, influx_http_port, prom_listen_port, mav_version, mav_system_id,
  mav_component_id, mav_rate_hz, mav_udp_port, mav_serial_baud, mav_tcp_port, pos_gpsd_port,
  pos_signalk_port, sim_loop, capture_enabled, nmea_enabled, nmea_tcp_enabled, highrate_enabled,
  stream_enabled, stream_tcp_enabled, sk_enabled, sk_udp_enabled, sk_tcp_enabled, publish_heave,
  mqtt_enabled, mqtt_broker_enabled, mqtt_retain, mqtt_tls, mqtt_ha_discovery, influx_enabled,
  influx_udp_enabled, influx_http_enabled, prom_enabled, prom_http_enabled, mav_enabled,
  mav_send_attitude, mav_send_attitude_quaternion, mav_udp_enabled, mav_serial_enabled,
  mav_tcp_enabled, pos_speed_valid, pos_gpsd_enabled, pos_signalk_enabled, mount_set, sim_speed,
  mag_set_period_s, pos_speed_mps, pos_fix_max_age_h, startup_settle_sec, gyro_bias_sec,
  align_window_sec, pos_lat_deg, pos_lon_deg,
}
pub mod Texts
pub mod Numbers
pub mod Reload

-- The level of the log and the magnetic model's file; not the log file, whose path stays.
pub hot_str : StrField → Bool
hot_str log_level = true
hot_str pos_wmm_file = true
hot_str _ = false

-- The rates of the outputs and of the statistics: what the daemon can change while it runs.
pub hot_int : IntField → Bool
hot_int nmea_rate_hz = true
hot_int highrate_rate_hz = true
hot_int stream_rate_hz = true
hot_int log_stats_hz = true
hot_int _ = false

-- The switches of the magnetometer's use, and whether there is a declination and a field to use.
pub hot_bool : BoolField → Bool
hot_bool mag_yaw_only = true
hot_bool mag_fuse_uncal = true
hot_bool pos_declination_valid = true
hot_bool pos_mref_valid = true
hot_bool _ = false

-- The filters' times, the declination and the magnetic field's two parts.
pub hot_float : FloatField → Bool
hot_float heave_tau_s = true
hot_float wave_tau_s = true
hot_float pos_declination_deg = true
hot_float pos_mref_h_gauss = true
hot_float pos_mref_z_gauss = true
hot_float _ = false

-- The gains and the thresholds of the fusion; not the times that are read at the start, nor the
-- position, of which only the field that was computed from it is used.
pub hot_double : DoubleField → Bool
hot_double mag_uncal_reject_frac = true
hot_double mekf_gyro_noise = true
hot_double mekf_gyro_bias = true
hot_double mekf_accel_noise = true
hot_double mekf_mag_noise = true
hot_double mekf_wave_accel = true
hot_double mekf_wave_accel_tau_s = true
hot_double mekf_mag_dip_sigma_deg = true
hot_double mag_reject_gauss = true
hot_double accel_skip_thresh = true
hot_double engine_vibration_g2 = true
hot_double engine_accel_skip_thresh = true
hot_double _ = false
