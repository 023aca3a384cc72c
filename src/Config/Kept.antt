-- ===== src/Config/Kept.antt =====
-- src/config.c: the defaults are well formed.
use imud.Prelude.{◌<◌, length, arith}
use imud.Config.Fields.{
  StrField, IntField, DoubleField, str_size, capture_max_mb, capture_max_files, capture_flush_s,
  imu_spi_speed_hz, imu_addr, imu_int_gpio, imu_odr_mhz, imu_accel_g, imu_gyro_dps, imu_fifo_wm,
  imu_int_grace, imu_poll_ms, mag_spi_speed_hz, mag_addr, mag_int_gpio, mag_int_grace, mag_poll_ms,
  mag_odr_mhz, nmea_rate_hz, nmea_dest_port, nmea_tcp_port, highrate_rate_hz, highrate_dest_port,
  stream_rate_hz, stream_tcp_port, sk_dest_port, sk_rate_hz, sk_tcp_port, mqtt_broker_port,
  mqtt_rate_hz, mqtt_qos, mqtt_keepalive_s, influx_rate_hz, influx_udp_port, influx_http_port,
  prom_listen_port, mav_version, mav_system_id, mav_component_id, mav_rate_hz, mav_udp_port,
  mav_serial_baud, mav_tcp_port, log_stats_hz, pos_gpsd_port, pos_signalk_port, i2c_bus, gpio_chip,
  sim_file, pid_file, status_socket, capture_dir, imu_driver, imu_spi_dev, mag_driver, mag_spi_dev,
  cal_file, nmea_dest_addr, nmea_tcp_bind_addr, highrate_dest_addr, highrate_coord_frame,
  stream_socket, stream_tcp_bind_addr, sk_dest_addr, sk_source_label, sk_tcp_bind_addr,
  mqtt_broker_addr, mqtt_client_id, mqtt_topic_prefix, mqtt_units, mqtt_username, mqtt_password,
  mqtt_tls_cafile, mqtt_ha_prefix, influx_transport, influx_measurement, influx_source_label,
  influx_units, influx_detail, influx_udp_addr, influx_http_host, influx_http_path,
  influx_http_token, prom_listen_addr, mav_udp_addr, mav_serial_device, mav_tcp_bind_addr,
  log_level, log_file, pos_wmm_file, pos_gpsd_host, pos_signalk_host, pos_signalk_path,
  mount_preset,
}
use imud.Config.Defaults.{default_str, default_int, default_double, config_defaults}
use imud.Config.Ranges.{int_range, Within, WellFormed, Doubles}

default_int-InRange : (f : IntField) → Within (int_range f) (default_int f)
unfolding default_int int_range
default_int-InRange capture_max_mb = tt
default_int-InRange capture_max_files = tt
default_int-InRange capture_flush_s = tt
default_int-InRange imu_spi_speed_hz = tt
default_int-InRange imu_addr = (omega arith, omega arith)
default_int-InRange imu_int_gpio = (omega arith, omega arith)
default_int-InRange imu_odr_mhz = tt
default_int-InRange imu_accel_g = tt
default_int-InRange imu_gyro_dps = tt
default_int-InRange imu_fifo_wm = (omega arith, omega arith)
default_int-InRange imu_int_grace = (omega arith, omega arith)
default_int-InRange imu_poll_ms = tt
default_int-InRange mag_spi_speed_hz = tt
default_int-InRange mag_addr = (omega arith, omega arith)
default_int-InRange mag_int_gpio = (omega arith, omega arith)
default_int-InRange mag_int_grace = (omega arith, omega arith)
default_int-InRange mag_poll_ms = tt
default_int-InRange mag_odr_mhz = tt
default_int-InRange nmea_rate_hz = (omega arith, omega arith)
default_int-InRange nmea_dest_port = (omega arith, omega arith)
default_int-InRange nmea_tcp_port = (omega arith, omega arith)
default_int-InRange highrate_rate_hz = (omega arith, omega arith)
default_int-InRange highrate_dest_port = (omega arith, omega arith)
default_int-InRange stream_rate_hz = (omega arith, omega arith)
default_int-InRange stream_tcp_port = (omega arith, omega arith)
default_int-InRange sk_dest_port = (omega arith, omega arith)
default_int-InRange sk_rate_hz = (omega arith, omega arith)
default_int-InRange sk_tcp_port = (omega arith, omega arith)
default_int-InRange mqtt_broker_port = (omega arith, omega arith)
default_int-InRange mqtt_rate_hz = (omega arith, omega arith)
default_int-InRange mqtt_qos = (omega arith, omega arith)
default_int-InRange mqtt_keepalive_s = tt
default_int-InRange influx_rate_hz = (omega arith, omega arith)
default_int-InRange influx_udp_port = (omega arith, omega arith)
default_int-InRange influx_http_port = (omega arith, omega arith)
default_int-InRange prom_listen_port = (omega arith, omega arith)
default_int-InRange mav_version = tt
default_int-InRange mav_system_id = (omega arith, omega arith)
default_int-InRange mav_component_id = (omega arith, omega arith)
default_int-InRange mav_rate_hz = (omega arith, omega arith)
default_int-InRange mav_udp_port = (omega arith, omega arith)
default_int-InRange mav_serial_baud = tt
default_int-InRange mav_tcp_port = (omega arith, omega arith)
default_int-InRange log_stats_hz = (omega arith, omega arith)
default_int-InRange pos_gpsd_port = (omega arith, omega arith)
default_int-InRange pos_signalk_port = (omega arith, omega arith)

default_str-TextsFit : (f : StrField) → length (default_str f) < str_size f
unfolding default_str str_size
default_str-TextsFit i2c_bus = omega arith
default_str-TextsFit gpio_chip = omega arith
default_str-TextsFit sim_file = omega arith
default_str-TextsFit pid_file = omega arith
default_str-TextsFit status_socket = omega arith
default_str-TextsFit capture_dir = omega arith
default_str-TextsFit imu_driver = omega arith
default_str-TextsFit imu_spi_dev = omega arith
default_str-TextsFit mag_driver = omega arith
default_str-TextsFit mag_spi_dev = omega arith
default_str-TextsFit cal_file = omega arith
default_str-TextsFit nmea_dest_addr = omega arith
default_str-TextsFit nmea_tcp_bind_addr = omega arith
default_str-TextsFit highrate_dest_addr = omega arith
default_str-TextsFit highrate_coord_frame = omega arith
default_str-TextsFit stream_socket = omega arith
default_str-TextsFit stream_tcp_bind_addr = omega arith
default_str-TextsFit sk_dest_addr = omega arith
default_str-TextsFit sk_source_label = omega arith
default_str-TextsFit sk_tcp_bind_addr = omega arith
default_str-TextsFit mqtt_broker_addr = omega arith
default_str-TextsFit mqtt_client_id = omega arith
default_str-TextsFit mqtt_topic_prefix = omega arith
default_str-TextsFit mqtt_units = omega arith
default_str-TextsFit mqtt_username = omega arith
default_str-TextsFit mqtt_password = omega arith
default_str-TextsFit mqtt_tls_cafile = omega arith
default_str-TextsFit mqtt_ha_prefix = omega arith
default_str-TextsFit influx_transport = omega arith
default_str-TextsFit influx_measurement = omega arith
default_str-TextsFit influx_source_label = omega arith
default_str-TextsFit influx_units = omega arith
default_str-TextsFit influx_detail = omega arith
default_str-TextsFit influx_udp_addr = omega arith
default_str-TextsFit influx_http_host = omega arith
default_str-TextsFit influx_http_path = omega arith
default_str-TextsFit influx_http_token = omega arith
default_str-TextsFit prom_listen_addr = omega arith
default_str-TextsFit mav_udp_addr = omega arith
default_str-TextsFit mav_serial_device = omega arith
default_str-TextsFit mav_tcp_bind_addr = omega arith
default_str-TextsFit log_level = omega arith
default_str-TextsFit log_file = omega arith
default_str-TextsFit pos_wmm_file = omega arith
default_str-TextsFit pos_gpsd_host = omega arith
default_str-TextsFit pos_signalk_host = omega arith
default_str-TextsFit pos_signalk_path = omega arith
default_str-TextsFit mount_preset = omega arith

-- The defaults are well formed: each ranged `int` in its key's bounds, and each text shorter than its
-- array; and each `double` is what it is asked to be where its default is.
pub config_defaults-WellFormed :
    (asked : Doubles)
    → ((f : DoubleField) → asked f (default_double f))
    → WellFormed asked config_defaults
unfolding config_defaults
config_defaults-WellFormed asked good = (default_int-InRange, (default_str-TextsFit, good))
