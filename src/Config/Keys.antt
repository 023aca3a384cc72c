-- ===== src/Config/Keys.antt =====
-- src/config.c, `apply_kv`: the keys of each section and the macros that take their values.
use Prim.Native.String.{String}
use imud.Prelude.{List, [], ◌∷◌}
use imud.Config.Fields.{
  i2c_bus, gpio_chip, sim_file, pid_file, status_socket, capture_dir, imu_driver, imu_spi_dev,
  mag_driver, mag_spi_dev, cal_file, nmea_dest_addr, nmea_tcp_bind_addr, highrate_dest_addr,
  highrate_coord_frame, stream_socket, stream_tcp_bind_addr, sk_dest_addr, sk_source_label,
  sk_tcp_bind_addr, mqtt_broker_addr, mqtt_client_id, mqtt_topic_prefix, mqtt_units, mqtt_username,
  mqtt_password, mqtt_tls_cafile, mqtt_ha_prefix, influx_transport, influx_measurement,
  influx_source_label, influx_units, influx_detail, influx_udp_addr, influx_http_host,
  influx_http_path, influx_http_token, prom_listen_addr, mav_udp_addr, mav_serial_device,
  mav_tcp_bind_addr, log_level, log_file, pos_wmm_file, pos_gpsd_host, pos_signalk_host,
  pos_signalk_path, capture_max_mb, capture_max_files, capture_flush_s, imu_spi_speed_hz, imu_addr,
  imu_int_gpio, imu_odr_mhz, imu_accel_g, imu_gyro_dps, imu_fifo_wm, imu_int_grace, imu_poll_ms,
  mag_spi_speed_hz, mag_addr, mag_int_gpio, mag_int_grace, mag_poll_ms, mag_odr_mhz, nmea_rate_hz,
  nmea_dest_port, nmea_tcp_port, highrate_rate_hz, highrate_dest_port, stream_rate_hz,
  stream_tcp_port, sk_dest_port, sk_rate_hz, sk_tcp_port, mqtt_broker_port, mqtt_rate_hz, mqtt_qos,
  mqtt_keepalive_s, influx_rate_hz, influx_udp_port, influx_http_port, prom_listen_port,
  mav_version, mav_system_id, mav_component_id, mav_rate_hz, mav_udp_port, mav_serial_baud,
  mav_tcp_port, log_stats_hz, pos_gpsd_port, pos_signalk_port, sim_loop, capture_enabled,
  mag_yaw_only, mag_fuse_uncal, nmea_enabled, nmea_tcp_enabled, highrate_enabled, stream_enabled,
  stream_tcp_enabled, sk_enabled, sk_udp_enabled, sk_tcp_enabled, publish_heave, mqtt_enabled,
  mqtt_broker_enabled, mqtt_retain, mqtt_tls, mqtt_ha_discovery, influx_enabled, influx_udp_enabled,
  influx_http_enabled, prom_enabled, prom_http_enabled, mav_enabled, mav_send_attitude,
  mav_send_attitude_quaternion, mav_udp_enabled, mav_serial_enabled, mav_tcp_enabled,
  pos_gpsd_enabled, pos_signalk_enabled, sim_speed, mag_set_period_s, heave_tau_s, wave_tau_s,
  pos_fix_max_age_h, mag_uncal_reject_frac, mekf_gyro_noise, mekf_gyro_bias, mekf_accel_noise,
  mekf_mag_noise, mekf_wave_accel, mekf_wave_accel_tau_s, mekf_mag_dip_sigma_deg, mag_reject_gauss,
  accel_skip_thresh, engine_vibration_g2, engine_accel_skip_thresh, startup_settle_sec,
  gyro_bias_sec, align_window_sec, pos_lat_deg, pos_lon_deg, imu_bus_kind, mag_bus_kind,
}
use imud.Config.Values.{
  Rule, need_str, need_topic, need_frame, need_bool, need_int, need_pos_int, need_pos_mhz,
  need_range_int, need_flt, need_dbl, need_pos_dbl, need_range_dbl, need_bus_kind, need_declination,
  mount_euler, mount_matrix, mount_preset_key, need_port, need_gpio, need_rate_hz, need_i2c_addr,
}

-- The keys of a section, in the order in which they are compared.
abbrev pub Rules : Type 0
Rules = List (String × Rule)

unfoldable pub mount_rules : Rules
mount_rules =
    ("rotation_euler_deg", mount_euler)
    ∷ ("rotation_matrix", mount_matrix)
    ∷ ("preset", mount_preset_key)
    ∷ []

unfoldable pub device_rules : Rules
device_rules =
    ("i2c_bus", need_str i2c_bus)
    ∷ ("gpio_chip", need_str gpio_chip)
    ∷ ("sim_file", need_str sim_file)
    ∷ ("sim_loop", need_bool sim_loop)
    ∷ ("sim_speed", need_flt sim_speed)
    ∷ []

unfoldable pub runtime_rules : Rules
runtime_rules = ("pid_file", need_str pid_file) ∷ ("status_socket", need_str status_socket) ∷ []

unfoldable pub capture_rules : Rules
capture_rules =
    ("enabled", need_bool capture_enabled)
    ∷ ("dir", need_str capture_dir)
    ∷ ("max_mb", need_int capture_max_mb)
    ∷ ("max_files", need_int capture_max_files)
    ∷ ("flush_s", need_int capture_flush_s)
    ∷ []

unfoldable pub imu_rules : Rules
imu_rules =
    ("driver", need_str imu_driver)
    ∷ ("bus", need_bus_kind imu_bus_kind)
    ∷ ("spi_dev", need_str imu_spi_dev)
    ∷ ("spi_speed_hz", need_int imu_spi_speed_hz)
    ∷ ("i2c_addr", need_i2c_addr imu_addr)
    ∷ ("int_gpio", need_gpio imu_int_gpio)
    ∷ ("odr_hz", need_pos_mhz imu_odr_mhz)
    ∷ ("accel_g", need_int imu_accel_g)
    ∷ ("gyro_dps", need_int imu_gyro_dps)
    ∷ ("fifo_wm", need_range_int imu_fifo_wm 1 511)
    ∷ ("int_grace", need_pos_int imu_int_grace)
    ∷ ("poll_ms", need_int imu_poll_ms)
    ∷ []

unfoldable pub mag_rules : Rules
mag_rules =
    ("driver", need_str mag_driver)
    ∷ ("bus", need_bus_kind mag_bus_kind)
    ∷ ("spi_dev", need_str mag_spi_dev)
    ∷ ("spi_speed_hz", need_int mag_spi_speed_hz)
    ∷ ("i2c_addr", need_i2c_addr mag_addr)
    ∷ ("int_gpio", need_gpio mag_int_gpio)
    ∷ ("int_grace", need_pos_int mag_int_grace)
    ∷ ("poll_ms", need_int mag_poll_ms)
    ∷ ("odr_hz", need_pos_mhz mag_odr_mhz)
    ∷ ("set_period_s", need_flt mag_set_period_s)
    ∷ []

unfoldable pub fusion_rules : Rules
fusion_rules =
    ("mag_yaw_only", need_bool mag_yaw_only)
    ∷ ("mag_fuse_uncal", need_bool mag_fuse_uncal)
    ∷ ("mag_uncal_reject_frac", need_range_dbl mag_uncal_reject_frac 0 0x3ff0000000000000)
    ∷ ("heave_tau_s", need_flt heave_tau_s)
    ∷ ("wave_tau_s", need_flt wave_tau_s)
    ∷ ("mekf_gyro_noise", need_pos_dbl mekf_gyro_noise)
    ∷ ("mekf_gyro_bias", need_pos_dbl mekf_gyro_bias)
    ∷ ("mekf_accel_noise", need_pos_dbl mekf_accel_noise)
    ∷ ("mekf_mag_noise", need_pos_dbl mekf_mag_noise)
    ∷ ("mekf_wave_accel", need_dbl mekf_wave_accel)
    ∷ ("mekf_wave_accel_tau_s", need_dbl mekf_wave_accel_tau_s)
    ∷ ("mekf_mag_dip_sigma_deg", need_dbl mekf_mag_dip_sigma_deg)
    ∷ ("mag_reject_gauss", need_dbl mag_reject_gauss)
    ∷ ("accel_skip_thresh", need_range_dbl accel_skip_thresh 0x3f50624dd2f1a9fc 0x3ff0000000000000)
    ∷ ("engine_vibration_g2", need_dbl engine_vibration_g2)
    ∷ (
      "engine_accel_skip_thresh",
      need_range_dbl engine_accel_skip_thresh 0x3f50624dd2f1a9fc 0x3ff0000000000000,
    )
    ∷ []

unfoldable pub calibration_rules : Rules
calibration_rules =
    ("file", need_str cal_file)
    ∷ ("startup_settle_sec", need_dbl startup_settle_sec)
    ∷ ("gyro_bias_sec", need_dbl gyro_bias_sec)
    ∷ ("align_window_sec", need_dbl align_window_sec)
    ∷ []

unfoldable pub nmea_rules : Rules
nmea_rules =
    ("enabled", need_bool nmea_enabled)
    ∷ ("rate_hz", need_rate_hz nmea_rate_hz)
    ∷ ("dest_addr", need_str nmea_dest_addr)
    ∷ ("dest_port", need_port nmea_dest_port)
    ∷ ("tcp_enabled", need_bool nmea_tcp_enabled)
    ∷ ("tcp_bind_addr", need_str nmea_tcp_bind_addr)
    ∷ ("tcp_port", need_port nmea_tcp_port)
    ∷ []

unfoldable pub highrate_rules : Rules
highrate_rules =
    ("enabled", need_bool highrate_enabled)
    ∷ ("rate_hz", need_rate_hz highrate_rate_hz)
    ∷ ("dest_addr", need_str highrate_dest_addr)
    ∷ ("dest_port", need_port highrate_dest_port)
    ∷ ("coord_frame", need_frame highrate_coord_frame)
    ∷ []

unfoldable pub stream_rules : Rules
stream_rules =
    ("enabled", need_bool stream_enabled)
    ∷ ("socket", need_str stream_socket)
    ∷ ("rate_hz", need_rate_hz stream_rate_hz)
    ∷ ("tcp_enabled", need_bool stream_tcp_enabled)
    ∷ ("tcp_bind_addr", need_str stream_tcp_bind_addr)
    ∷ ("tcp_port", need_port stream_tcp_port)
    ∷ []

unfoldable pub signalk_rules : Rules
signalk_rules =
    ("enabled", need_bool sk_enabled)
    ∷ ("udp_enabled", need_bool sk_udp_enabled)
    ∷ ("socket", need_str stream_socket)
    ∷ ("dest_addr", need_str sk_dest_addr)
    ∷ ("dest_port", need_port sk_dest_port)
    ∷ ("rate_hz", need_rate_hz sk_rate_hz)
    ∷ ("source_label", need_str sk_source_label)
    ∷ ("publish_heave", need_bool publish_heave)
    ∷ ("tcp_enabled", need_bool sk_tcp_enabled)
    ∷ ("tcp_bind_addr", need_str sk_tcp_bind_addr)
    ∷ ("tcp_port", need_port sk_tcp_port)
    ∷ []

unfoldable pub mqtt_rules : Rules
mqtt_rules =
    ("enabled", need_bool mqtt_enabled)
    ∷ ("broker_enabled", need_bool mqtt_broker_enabled)
    ∷ ("socket", need_str stream_socket)
    ∷ ("broker_addr", need_str mqtt_broker_addr)
    ∷ ("broker_port", need_port mqtt_broker_port)
    ∷ ("client_id", need_str mqtt_client_id)
    ∷ ("topic_prefix", need_topic mqtt_topic_prefix)
    ∷ ("rate_hz", need_rate_hz mqtt_rate_hz)
    ∷ ("qos", need_range_int mqtt_qos 0 2)
    ∷ ("retain", need_bool mqtt_retain)
    ∷ ("units", need_str mqtt_units)
    ∷ ("publish_heave", need_bool publish_heave)
    ∷ ("username", need_str mqtt_username)
    ∷ ("password", need_str mqtt_password)
    ∷ ("tls", need_bool mqtt_tls)
    ∷ ("tls_cafile", need_str mqtt_tls_cafile)
    ∷ ("keepalive_s", need_int mqtt_keepalive_s)
    ∷ ("ha_discovery", need_bool mqtt_ha_discovery)
    ∷ ("ha_prefix", need_topic mqtt_ha_prefix)
    ∷ []

unfoldable pub influx_rules : Rules
influx_rules =
    ("enabled", need_bool influx_enabled)
    ∷ ("socket", need_str stream_socket)
    ∷ ("transport", need_str influx_transport)
    ∷ ("rate_hz", need_rate_hz influx_rate_hz)
    ∷ ("measurement", need_str influx_measurement)
    ∷ ("source_label", need_str influx_source_label)
    ∷ ("units", need_str influx_units)
    ∷ ("detail", need_str influx_detail)
    ∷ ("publish_heave", need_bool publish_heave)
    ∷ ("udp_enabled", need_bool influx_udp_enabled)
    ∷ ("udp_addr", need_str influx_udp_addr)
    ∷ ("udp_port", need_port influx_udp_port)
    ∷ ("http_enabled", need_bool influx_http_enabled)
    ∷ ("http_host", need_str influx_http_host)
    ∷ ("http_port", need_port influx_http_port)
    ∷ ("http_path", need_str influx_http_path)
    ∷ ("http_token", need_str influx_http_token)
    ∷ []

unfoldable pub prom_rules : Rules
prom_rules =
    ("enabled", need_bool prom_enabled)
    ∷ ("http_enabled", need_bool prom_http_enabled)
    ∷ ("socket", need_str stream_socket)
    ∷ ("listen_addr", need_str prom_listen_addr)
    ∷ ("listen_port", need_port prom_listen_port)
    ∷ []

unfoldable pub mavlink_rules : Rules
mavlink_rules =
    ("enabled", need_bool mav_enabled)
    ∷ ("socket", need_str stream_socket)
    ∷ ("version", need_int mav_version)
    ∷ ("system_id", need_range_int mav_system_id 1 255)
    ∷ ("component_id", need_range_int mav_component_id 1 255)
    ∷ ("rate_hz", need_rate_hz mav_rate_hz)
    ∷ ("send_attitude", need_bool mav_send_attitude)
    ∷ ("send_attitude_quaternion", need_bool mav_send_attitude_quaternion)
    ∷ ("udp_enabled", need_bool mav_udp_enabled)
    ∷ ("udp_addr", need_str mav_udp_addr)
    ∷ ("udp_port", need_port mav_udp_port)
    ∷ ("serial_enabled", need_bool mav_serial_enabled)
    ∷ ("serial_device", need_str mav_serial_device)
    ∷ ("serial_baud", need_int mav_serial_baud)
    ∷ ("tcp_enabled", need_bool mav_tcp_enabled)
    ∷ ("tcp_bind_addr", need_str mav_tcp_bind_addr)
    ∷ ("tcp_port", need_port mav_tcp_port)
    ∷ []

unfoldable pub logging_rules : Rules
logging_rules =
    ("level", need_str log_level)
    ∷ ("file", need_str log_file)
    ∷ ("stats_hz", need_range_int log_stats_hz 1 100)
    ∷ []

unfoldable pub position_rules : Rules
position_rules =
    ("declination_deg", need_declination)
    ∷ ("lat_deg", need_range_dbl pos_lat_deg 0xc056800000000000 0x4056800000000000)
    ∷ ("lon_deg", need_range_dbl pos_lon_deg 0xc066800000000000 0x4066800000000000)
    ∷ ("wmm_file", need_str pos_wmm_file)
    ∷ ("gpsd_enabled", need_bool pos_gpsd_enabled)
    ∷ ("gpsd_host", need_str pos_gpsd_host)
    ∷ ("gpsd_port", need_port pos_gpsd_port)
    ∷ ("signalk_enabled", need_bool pos_signalk_enabled)
    ∷ ("signalk_host", need_str pos_signalk_host)
    ∷ ("signalk_port", need_port pos_signalk_port)
    ∷ ("signalk_path", need_str pos_signalk_path)
    ∷ ("fix_max_age_h", need_flt pos_fix_max_age_h)
    ∷ []
