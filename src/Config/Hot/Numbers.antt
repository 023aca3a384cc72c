-- ===== src/Config/Hot/Numbers.antt =====
-- src/config.c: each number and switch after a reload.
use imud.Prelude.{◌≡◌, refl, if◌then◌else◌}
use imud.Config.Fields.{
  Config, IntField, BoolField, FloatField, DoubleField, IntField-discrete, BoolField-discrete,
  FloatField-discrete, DoubleField-discrete, set_str, set_int, set_bool, set_float, set_double,
  accel_skip_thresh, engine_accel_skip_thresh, engine_vibration_g2, heave_tau_s, highrate_rate_hz,
  log_stats_hz, mag_fuse_uncal, mag_reject_gauss, mag_uncal_reject_frac, mag_yaw_only,
  mekf_accel_noise, mekf_gyro_bias, mekf_gyro_noise, mekf_mag_dip_sigma_deg, mekf_mag_noise,
  mekf_wave_accel, mekf_wave_accel_tau_s, nmea_rate_hz, pos_declination_deg, pos_declination_valid,
  pos_mref_h_gauss, pos_mref_valid, pos_mref_z_gauss, stream_rate_hz, wave_tau_s, capture_max_mb,
  capture_max_files, capture_flush_s, imu_spi_speed_hz, imu_addr, imu_int_gpio, imu_odr_mhz,
  imu_accel_g, imu_gyro_dps, imu_fifo_wm, imu_int_grace, imu_poll_ms, mag_spi_speed_hz, mag_addr,
  mag_int_gpio, mag_int_grace, mag_poll_ms, mag_odr_mhz, nmea_dest_port, nmea_tcp_port,
  highrate_dest_port, stream_tcp_port, sk_dest_port, sk_rate_hz, sk_tcp_port, mqtt_broker_port,
  mqtt_rate_hz, mqtt_qos, mqtt_keepalive_s, influx_rate_hz, influx_udp_port, influx_http_port,
  prom_listen_port, mav_version, mav_system_id, mav_component_id, mav_rate_hz, mav_udp_port,
  mav_serial_baud, mav_tcp_port, pos_gpsd_port, pos_signalk_port, sim_loop, capture_enabled,
  nmea_enabled, nmea_tcp_enabled, highrate_enabled, stream_enabled, stream_tcp_enabled, sk_enabled,
  sk_udp_enabled, sk_tcp_enabled, publish_heave, mqtt_enabled, mqtt_broker_enabled, mqtt_retain,
  mqtt_tls, mqtt_ha_discovery, influx_enabled, influx_udp_enabled, influx_http_enabled,
  prom_enabled, prom_http_enabled, mav_enabled, mav_send_attitude, mav_send_attitude_quaternion,
  mav_udp_enabled, mav_serial_enabled, mav_tcp_enabled, pos_speed_valid, pos_gpsd_enabled,
  pos_signalk_enabled, mount_set, sim_speed, mag_set_period_s, pos_speed_mps, pos_fix_max_age_h,
  startup_settle_sec, gyro_bias_sec, align_window_sec, pos_lat_deg, pos_lon_deg,
}
use imud.Config.Load.{copy_strs, copy_ints, copy_bools, copy_floats, copy_doubles, config_apply_hot}
use imud.Config.Hot.{hot_int, hot_bool, hot_float, hot_double}

pub copied_int :
    (src dst : Config) (f : IntField)
    → (config_apply_hot src dst).ints f ≡ (if hot_int f then src.ints f else dst.ints f)
unfolding config_apply_hot copy_strs copy_ints copy_bools copy_floats copy_doubles set_str set_int
    set_bool set_float set_double hot_int IntField-discrete
copied_int src dst capture_max_mb = refl
copied_int src dst capture_max_files = refl
copied_int src dst capture_flush_s = refl
copied_int src dst imu_spi_speed_hz = refl
copied_int src dst imu_addr = refl
copied_int src dst imu_int_gpio = refl
copied_int src dst imu_odr_mhz = refl
copied_int src dst imu_accel_g = refl
copied_int src dst imu_gyro_dps = refl
copied_int src dst imu_fifo_wm = refl
copied_int src dst imu_int_grace = refl
copied_int src dst imu_poll_ms = refl
copied_int src dst mag_spi_speed_hz = refl
copied_int src dst mag_addr = refl
copied_int src dst mag_int_gpio = refl
copied_int src dst mag_int_grace = refl
copied_int src dst mag_poll_ms = refl
copied_int src dst mag_odr_mhz = refl
copied_int src dst nmea_rate_hz = refl
copied_int src dst nmea_dest_port = refl
copied_int src dst nmea_tcp_port = refl
copied_int src dst highrate_rate_hz = refl
copied_int src dst highrate_dest_port = refl
copied_int src dst stream_rate_hz = refl
copied_int src dst stream_tcp_port = refl
copied_int src dst sk_dest_port = refl
copied_int src dst sk_rate_hz = refl
copied_int src dst sk_tcp_port = refl
copied_int src dst mqtt_broker_port = refl
copied_int src dst mqtt_rate_hz = refl
copied_int src dst mqtt_qos = refl
copied_int src dst mqtt_keepalive_s = refl
copied_int src dst influx_rate_hz = refl
copied_int src dst influx_udp_port = refl
copied_int src dst influx_http_port = refl
copied_int src dst prom_listen_port = refl
copied_int src dst mav_version = refl
copied_int src dst mav_system_id = refl
copied_int src dst mav_component_id = refl
copied_int src dst mav_rate_hz = refl
copied_int src dst mav_udp_port = refl
copied_int src dst mav_serial_baud = refl
copied_int src dst mav_tcp_port = refl
copied_int src dst log_stats_hz = refl
copied_int src dst pos_gpsd_port = refl
copied_int src dst pos_signalk_port = refl

pub copied_bool :
    (src dst : Config) (f : BoolField)
    → (config_apply_hot src dst).bools f ≡ (if hot_bool f then src.bools f else dst.bools f)
unfolding config_apply_hot copy_strs copy_ints copy_bools copy_floats copy_doubles set_str set_int
    set_bool set_float set_double hot_bool BoolField-discrete
copied_bool src dst sim_loop = refl
copied_bool src dst capture_enabled = refl
copied_bool src dst mag_yaw_only = refl
copied_bool src dst mag_fuse_uncal = refl
copied_bool src dst nmea_enabled = refl
copied_bool src dst nmea_tcp_enabled = refl
copied_bool src dst highrate_enabled = refl
copied_bool src dst stream_enabled = refl
copied_bool src dst stream_tcp_enabled = refl
copied_bool src dst sk_enabled = refl
copied_bool src dst sk_udp_enabled = refl
copied_bool src dst sk_tcp_enabled = refl
copied_bool src dst publish_heave = refl
copied_bool src dst mqtt_enabled = refl
copied_bool src dst mqtt_broker_enabled = refl
copied_bool src dst mqtt_retain = refl
copied_bool src dst mqtt_tls = refl
copied_bool src dst mqtt_ha_discovery = refl
copied_bool src dst influx_enabled = refl
copied_bool src dst influx_udp_enabled = refl
copied_bool src dst influx_http_enabled = refl
copied_bool src dst prom_enabled = refl
copied_bool src dst prom_http_enabled = refl
copied_bool src dst mav_enabled = refl
copied_bool src dst mav_send_attitude = refl
copied_bool src dst mav_send_attitude_quaternion = refl
copied_bool src dst mav_udp_enabled = refl
copied_bool src dst mav_serial_enabled = refl
copied_bool src dst mav_tcp_enabled = refl
copied_bool src dst pos_declination_valid = refl
copied_bool src dst pos_mref_valid = refl
copied_bool src dst pos_speed_valid = refl
copied_bool src dst pos_gpsd_enabled = refl
copied_bool src dst pos_signalk_enabled = refl
copied_bool src dst mount_set = refl

pub copied_float :
    (src dst : Config) (f : FloatField)
    → (config_apply_hot src dst).floats f ≡ (if hot_float f then src.floats f else dst.floats f)
unfolding config_apply_hot copy_strs copy_ints copy_bools copy_floats copy_doubles set_str set_int
    set_bool set_float set_double hot_float FloatField-discrete
copied_float src dst sim_speed = refl
copied_float src dst mag_set_period_s = refl
copied_float src dst heave_tau_s = refl
copied_float src dst wave_tau_s = refl
copied_float src dst pos_declination_deg = refl
copied_float src dst pos_mref_h_gauss = refl
copied_float src dst pos_mref_z_gauss = refl
copied_float src dst pos_speed_mps = refl
copied_float src dst pos_fix_max_age_h = refl

pub copied_double :
    (src dst : Config) (f : DoubleField)
    → (config_apply_hot src dst).doubles f ≡ (if hot_double f then src.doubles f else dst.doubles f)
unfolding config_apply_hot copy_strs copy_ints copy_bools copy_floats copy_doubles set_str set_int
    set_bool set_float set_double hot_double DoubleField-discrete
copied_double src dst mag_uncal_reject_frac = refl
copied_double src dst mekf_gyro_noise = refl
copied_double src dst mekf_gyro_bias = refl
copied_double src dst mekf_accel_noise = refl
copied_double src dst mekf_mag_noise = refl
copied_double src dst mekf_wave_accel = refl
copied_double src dst mekf_wave_accel_tau_s = refl
copied_double src dst mekf_mag_dip_sigma_deg = refl
copied_double src dst mag_reject_gauss = refl
copied_double src dst accel_skip_thresh = refl
copied_double src dst engine_vibration_g2 = refl
copied_double src dst engine_accel_skip_thresh = refl
copied_double src dst startup_settle_sec = refl
copied_double src dst gyro_bias_sec = refl
copied_double src dst align_window_sec = refl
copied_double src dst pos_lat_deg = refl
copied_double src dst pos_lon_deg = refl
