-- ===== src/Config/Hot/Texts.antt =====
-- src/config.c: each text after a reload.
use imud.Prelude.{◌-◌, ◌≡◌, refl, if◌then◌else◌, take}
use imud.Config.Fields.{
  Config, StrField, StrField-discrete, str_size, set_str, set_int, set_bool, set_float, set_double,
  log_level, pos_wmm_file, i2c_bus, gpio_chip, sim_file, pid_file, status_socket, capture_dir,
  imu_driver, imu_spi_dev, mag_driver, mag_spi_dev, cal_file, nmea_dest_addr, nmea_tcp_bind_addr,
  highrate_dest_addr, highrate_coord_frame, stream_socket, stream_tcp_bind_addr, sk_dest_addr,
  sk_source_label, sk_tcp_bind_addr, mqtt_broker_addr, mqtt_client_id, mqtt_topic_prefix,
  mqtt_units, mqtt_username, mqtt_password, mqtt_tls_cafile, mqtt_ha_prefix, influx_transport,
  influx_measurement, influx_source_label, influx_units, influx_detail, influx_udp_addr,
  influx_http_host, influx_http_path, influx_http_token, prom_listen_addr, mav_udp_addr,
  mav_serial_device, mav_tcp_bind_addr, log_file, pos_gpsd_host, pos_signalk_host, pos_signalk_path,
  mount_preset,
}
use imud.Config.Load.{copy_strs, copy_ints, copy_bools, copy_floats, copy_doubles, config_apply_hot}
use imud.Config.Hot.{hot_str}

pub copied_str :
    (src dst : Config) (f : StrField)
    → (config_apply_hot src dst).strs f
      ≡ (if hot_str f then take (str_size f - 1) (src.strs f) else dst.strs f)
unfolding config_apply_hot copy_strs copy_ints copy_bools copy_floats copy_doubles set_str set_int
    set_bool set_float set_double hot_str StrField-discrete
copied_str src dst i2c_bus = refl
copied_str src dst gpio_chip = refl
copied_str src dst sim_file = refl
copied_str src dst pid_file = refl
copied_str src dst status_socket = refl
copied_str src dst capture_dir = refl
copied_str src dst imu_driver = refl
copied_str src dst imu_spi_dev = refl
copied_str src dst mag_driver = refl
copied_str src dst mag_spi_dev = refl
copied_str src dst cal_file = refl
copied_str src dst nmea_dest_addr = refl
copied_str src dst nmea_tcp_bind_addr = refl
copied_str src dst highrate_dest_addr = refl
copied_str src dst highrate_coord_frame = refl
copied_str src dst stream_socket = refl
copied_str src dst stream_tcp_bind_addr = refl
copied_str src dst sk_dest_addr = refl
copied_str src dst sk_source_label = refl
copied_str src dst sk_tcp_bind_addr = refl
copied_str src dst mqtt_broker_addr = refl
copied_str src dst mqtt_client_id = refl
copied_str src dst mqtt_topic_prefix = refl
copied_str src dst mqtt_units = refl
copied_str src dst mqtt_username = refl
copied_str src dst mqtt_password = refl
copied_str src dst mqtt_tls_cafile = refl
copied_str src dst mqtt_ha_prefix = refl
copied_str src dst influx_transport = refl
copied_str src dst influx_measurement = refl
copied_str src dst influx_source_label = refl
copied_str src dst influx_units = refl
copied_str src dst influx_detail = refl
copied_str src dst influx_udp_addr = refl
copied_str src dst influx_http_host = refl
copied_str src dst influx_http_path = refl
copied_str src dst influx_http_token = refl
copied_str src dst prom_listen_addr = refl
copied_str src dst mav_udp_addr = refl
copied_str src dst mav_serial_device = refl
copied_str src dst mav_tcp_bind_addr = refl
copied_str src dst log_level = refl
copied_str src dst log_file = refl
copied_str src dst pos_wmm_file = refl
copied_str src dst pos_gpsd_host = refl
copied_str src dst pos_signalk_host = refl
copied_str src dst pos_signalk_path = refl
copied_str src dst mount_preset = refl
