-- ===== src/Packet/Build.antt =====
-- src/packet.c, `packet_build`: the packet of a fused state and the samples behind it.
use imud.Prelude.{ℕ, ◌^◌, ◌==◌, if◌then◌else◌, bit_and}
use imud.Types.{ImuSample, MagSample, FusedState}
use imud.Packet.{Packet, imud_magic, imud_version, blank_reserved}

-- `FLAG_DECLINATION_VALID`
abbrev pub flag_declination_valid : ℕ
flag_declination_valid = 2 ^ 10

-- `memset` leaves the fields that no line sets at 0.
unfoldable pub packet_build : FusedState → MagSample → ImuSample → ImuSample → Packet
packet_build state mag imu raw_imu = record {
  magic = imud_magic;
  version = imud_version;
  flags = state.flags;
  ts_wall_ns = state.ts_wall_ns;
  ts_tai_ns = state.ts_tai_ns;
  ts_chip_ticks = state.ts_chip_ticks;
  anchor_gen = state.anchor_gen;
  accel_x = imu.accel.x;
  accel_y = imu.accel.y;
  accel_z = imu.accel.z;
  accel_raw_x = raw_imu.accel_raw.x;
  accel_raw_y = raw_imu.accel_raw.y;
  accel_raw_z = raw_imu.accel_raw.z;
  gyro_x = imu.gyro.x;
  gyro_y = imu.gyro.y;
  gyro_z = imu.gyro.z;
  gyro_raw_x = raw_imu.gyro.x;
  gyro_raw_y = raw_imu.gyro.y;
  gyro_raw_z = raw_imu.gyro.z;
  mag_x = mag.field.x;
  mag_y = mag.field.y;
  mag_z = mag.field.z;
  mag_raw_x = mag.field_raw.x;
  mag_raw_y = mag.field_raw.y;
  mag_raw_z = mag.field_raw.z;
  quat_w = state.q_w;
  quat_x = state.q_x;
  quat_y = state.q_y;
  quat_z = state.q_z;
  pitch = state.pitch;
  roll = state.roll;
  yaw = state.yaw;
  heading_deg = state.heading_deg;
  rate_of_turn = state.rate_of_turn;
  temp_c = imu.temp_c;
  cov = state.cov;
  imu_seq = state.imu_seq;
  declination_deg =
      if bit_and state.flags flag_declination_valid == 0 then 0 else state.declination_deg;
  heave_m = state.heave_m;
  gyro_bias_x = state.bias_gyro.x;
  gyro_bias_y = state.bias_gyro.y;
  gyro_bias_z = state.bias_gyro.z;
  gyro_bias_var_x = state.bias_gyro_var.x;
  gyro_bias_var_y = state.bias_gyro_var.y;
  gyro_bias_var_z = state.bias_gyro_var.z;
  heave_rate = state.heave_rate;
  accel_quiescence = state.quiescence;
  wave_height_m = state.wave_height_m;
  wave_period_s = state.wave_period_s;
  roll_period_s = state.roll_period_s;
  roll_amplitude = state.roll_amplitude;
  pitch_period_s = state.pitch_period_s;
  pitch_amplitude = state.pitch_amplitude;
  mag_anomaly = state.mag_anomaly;
  mag_residual = state.mag_residual;
  innov_weight = state.innov_weight;
  innov_reject = state.innov_reject;
  nis_accel = state.nis_accel;
  nis_mag = state.nis_mag;
  flags_ext = state.flags_ext;
  reserved = blank_reserved;
  crc32 = 0;
}
