-- ===== src/Packet/RoundTrip.antt =====
-- The two directions of the packet's wire form, and the copy of the decoder that clients carry.
use imud.Prelude.{ℕ, ◌^◌, ◌<◌, ◌≡◌, ◌++◌, [], arith}
use imud.Types.{Vec3}
use imud.Wire.{
  Bytes, wire_put_u32, wire_get_u16, wire_get_u32, wire_get_u64, wire_get_f32, crc32_ieee,
}
use imud.Wire.Crc.{crc32_ieee-lt}
use imud.Wire.Bytes.{AreBytes, get-put_u16, get-put_u32, get-put_u64}
use imud.Packet.{Packet, put_reserved, packet_body, packet_encode}
use imud.Packet.Read.{packet_decode}

abbrev pub FloatsFit : Vec3 → Type 0
FloatsFit v = (v.x < 2 ^ 32) × (v.y < 2 ^ 32) × (v.z < 2 ^ 32)

-- Every field of a packet fits its C type.
pub record Fits (pkt : Packet) : Type 0 where
  pub magic : pkt.magic < 2 ^ 32
  pub version : pkt.version < 2 ^ 16
  pub flags : pkt.flags < 2 ^ 16
  pub ts_wall_ns : pkt.ts_wall_ns < 2 ^ 64
  pub ts_tai_ns : pkt.ts_tai_ns < 2 ^ 64
  pub ts_chip_ticks : pkt.ts_chip_ticks < 2 ^ 32
  pub anchor_gen : pkt.anchor_gen < 2 ^ 32
  pub accel_x : pkt.accel_x < 2 ^ 32
  pub accel_y : pkt.accel_y < 2 ^ 32
  pub accel_z : pkt.accel_z < 2 ^ 32
  pub accel_raw_x : pkt.accel_raw_x < 2 ^ 32
  pub accel_raw_y : pkt.accel_raw_y < 2 ^ 32
  pub accel_raw_z : pkt.accel_raw_z < 2 ^ 32
  pub gyro_x : pkt.gyro_x < 2 ^ 32
  pub gyro_y : pkt.gyro_y < 2 ^ 32
  pub gyro_z : pkt.gyro_z < 2 ^ 32
  pub gyro_raw_x : pkt.gyro_raw_x < 2 ^ 32
  pub gyro_raw_y : pkt.gyro_raw_y < 2 ^ 32
  pub gyro_raw_z : pkt.gyro_raw_z < 2 ^ 32
  pub mag_x : pkt.mag_x < 2 ^ 32
  pub mag_y : pkt.mag_y < 2 ^ 32
  pub mag_z : pkt.mag_z < 2 ^ 32
  pub mag_raw_x : pkt.mag_raw_x < 2 ^ 32
  pub mag_raw_y : pkt.mag_raw_y < 2 ^ 32
  pub mag_raw_z : pkt.mag_raw_z < 2 ^ 32
  pub quat_w : pkt.quat_w < 2 ^ 32
  pub quat_x : pkt.quat_x < 2 ^ 32
  pub quat_y : pkt.quat_y < 2 ^ 32
  pub quat_z : pkt.quat_z < 2 ^ 32
  pub pitch : pkt.pitch < 2 ^ 32
  pub roll : pkt.roll < 2 ^ 32
  pub yaw : pkt.yaw < 2 ^ 32
  pub heading_deg : pkt.heading_deg < 2 ^ 32
  pub rate_of_turn : pkt.rate_of_turn < 2 ^ 32
  pub temp_c : pkt.temp_c < 2 ^ 32
  pub cov : FloatsFit pkt.cov.r0 × FloatsFit pkt.cov.r1 × FloatsFit pkt.cov.r2
  pub imu_seq : pkt.imu_seq < 2 ^ 32
  pub declination_deg : pkt.declination_deg < 2 ^ 32
  pub heave_m : pkt.heave_m < 2 ^ 32
  pub gyro_bias_x : pkt.gyro_bias_x < 2 ^ 32
  pub gyro_bias_y : pkt.gyro_bias_y < 2 ^ 32
  pub gyro_bias_z : pkt.gyro_bias_z < 2 ^ 32
  pub gyro_bias_var_x : pkt.gyro_bias_var_x < 2 ^ 32
  pub gyro_bias_var_y : pkt.gyro_bias_var_y < 2 ^ 32
  pub gyro_bias_var_z : pkt.gyro_bias_var_z < 2 ^ 32
  pub heave_rate : pkt.heave_rate < 2 ^ 32
  pub accel_quiescence : pkt.accel_quiescence < 2 ^ 32
  pub wave_height_m : pkt.wave_height_m < 2 ^ 32
  pub wave_period_s : pkt.wave_period_s < 2 ^ 32
  pub roll_period_s : pkt.roll_period_s < 2 ^ 32
  pub roll_amplitude : pkt.roll_amplitude < 2 ^ 32
  pub pitch_period_s : pkt.pitch_period_s < 2 ^ 32
  pub pitch_amplitude : pkt.pitch_amplitude < 2 ^ 32
  pub mag_anomaly : pkt.mag_anomaly < 2 ^ 32
  pub mag_residual : pkt.mag_residual < 2 ^ 32
  pub innov_weight : pkt.innov_weight < 2 ^ 32
  pub innov_reject : pkt.innov_reject < 2 ^ 32
  pub nis_accel : pkt.nis_accel < 2 ^ 32
  pub nis_mag : pkt.nis_mag < 2 ^ 32
  pub flags_ext : pkt.flags_ext < 2 ^ 32
  pub reserved : AreBytes (put_reserved pkt.reserved)

get-put_f32 : (v : ℕ) (rest : Bytes) → v < 2 ^ 32 → wire_get_f32 (wire_put_u32 v ++ rest) ≡ v
unfolding wire_get_f32
get-put_f32 v rest h = get-put_u32 v rest h

pub packet_body-AreBytes : (pkt : Packet) → Fits pkt → AreBytes (packet_body pkt)
unfolding packet_body
packet_body-AreBytes pkt f = omega (arith, f.reserved)

-- Decoding what was encoded gives back every field, with the CRC of the bytes in front of it.
pub packet_decode-packet_encode :
    (pkt : Packet)
    → Fits pkt
    → packet_decode (packet_encode pkt).0 ≡ record pkt { crc32 = crc32_ieee (packet_body pkt) }
unfolding packet_decode packet_encode packet_body wire_get_u16 wire_get_u32 wire_get_u64
    wire_get_f32
packet_decode-packet_encode pkt f = λ i. record {
  magic = get-put_u32 pkt.magic [] f.magic i;
  version = get-put_u16 pkt.version [] f.version i;
  flags = get-put_u16 pkt.flags [] f.flags i;
  ts_wall_ns = get-put_u64 pkt.ts_wall_ns [] f.ts_wall_ns i;
  ts_tai_ns = get-put_u64 pkt.ts_tai_ns [] f.ts_tai_ns i;
  ts_chip_ticks = get-put_u32 pkt.ts_chip_ticks [] f.ts_chip_ticks i;
  anchor_gen = get-put_u32 pkt.anchor_gen [] f.anchor_gen i;
  accel_x = get-put_f32 pkt.accel_x [] f.accel_x i;
  accel_y = get-put_f32 pkt.accel_y [] f.accel_y i;
  accel_z = get-put_f32 pkt.accel_z [] f.accel_z i;
  accel_raw_x = get-put_f32 pkt.accel_raw_x [] f.accel_raw_x i;
  accel_raw_y = get-put_f32 pkt.accel_raw_y [] f.accel_raw_y i;
  accel_raw_z = get-put_f32 pkt.accel_raw_z [] f.accel_raw_z i;
  gyro_x = get-put_f32 pkt.gyro_x [] f.gyro_x i;
  gyro_y = get-put_f32 pkt.gyro_y [] f.gyro_y i;
  gyro_z = get-put_f32 pkt.gyro_z [] f.gyro_z i;
  gyro_raw_x = get-put_f32 pkt.gyro_raw_x [] f.gyro_raw_x i;
  gyro_raw_y = get-put_f32 pkt.gyro_raw_y [] f.gyro_raw_y i;
  gyro_raw_z = get-put_f32 pkt.gyro_raw_z [] f.gyro_raw_z i;
  mag_x = get-put_f32 pkt.mag_x [] f.mag_x i;
  mag_y = get-put_f32 pkt.mag_y [] f.mag_y i;
  mag_z = get-put_f32 pkt.mag_z [] f.mag_z i;
  mag_raw_x = get-put_f32 pkt.mag_raw_x [] f.mag_raw_x i;
  mag_raw_y = get-put_f32 pkt.mag_raw_y [] f.mag_raw_y i;
  mag_raw_z = get-put_f32 pkt.mag_raw_z [] f.mag_raw_z i;
  quat_w = get-put_f32 pkt.quat_w [] f.quat_w i;
  quat_x = get-put_f32 pkt.quat_x [] f.quat_x i;
  quat_y = get-put_f32 pkt.quat_y [] f.quat_y i;
  quat_z = get-put_f32 pkt.quat_z [] f.quat_z i;
  pitch = get-put_f32 pkt.pitch [] f.pitch i;
  roll = get-put_f32 pkt.roll [] f.roll i;
  yaw = get-put_f32 pkt.yaw [] f.yaw i;
  heading_deg = get-put_f32 pkt.heading_deg [] f.heading_deg i;
  rate_of_turn = get-put_f32 pkt.rate_of_turn [] f.rate_of_turn i;
  temp_c = get-put_f32 pkt.temp_c [] f.temp_c i;
  cov = record {
    r0 = record {
      x = get-put_f32 pkt.cov.r0.x [] f.cov.0.0 i;
      y = get-put_f32 pkt.cov.r0.y [] f.cov.0.1 i;
      z = get-put_f32 pkt.cov.r0.z [] f.cov.0.2 i;
    };
    r1 = record {
      x = get-put_f32 pkt.cov.r1.x [] f.cov.1.0 i;
      y = get-put_f32 pkt.cov.r1.y [] f.cov.1.1 i;
      z = get-put_f32 pkt.cov.r1.z [] f.cov.1.2 i;
    };
    r2 = record {
      x = get-put_f32 pkt.cov.r2.x [] f.cov.2.0 i;
      y = get-put_f32 pkt.cov.r2.y [] f.cov.2.1 i;
      z = get-put_f32 pkt.cov.r2.z [] f.cov.2.2 i;
    };
  };
  imu_seq = get-put_u32 pkt.imu_seq [] f.imu_seq i;
  declination_deg = get-put_f32 pkt.declination_deg [] f.declination_deg i;
  heave_m = get-put_f32 pkt.heave_m [] f.heave_m i;
  gyro_bias_x = get-put_f32 pkt.gyro_bias_x [] f.gyro_bias_x i;
  gyro_bias_y = get-put_f32 pkt.gyro_bias_y [] f.gyro_bias_y i;
  gyro_bias_z = get-put_f32 pkt.gyro_bias_z [] f.gyro_bias_z i;
  gyro_bias_var_x = get-put_f32 pkt.gyro_bias_var_x [] f.gyro_bias_var_x i;
  gyro_bias_var_y = get-put_f32 pkt.gyro_bias_var_y [] f.gyro_bias_var_y i;
  gyro_bias_var_z = get-put_f32 pkt.gyro_bias_var_z [] f.gyro_bias_var_z i;
  heave_rate = get-put_f32 pkt.heave_rate [] f.heave_rate i;
  accel_quiescence = get-put_f32 pkt.accel_quiescence [] f.accel_quiescence i;
  wave_height_m = get-put_f32 pkt.wave_height_m [] f.wave_height_m i;
  wave_period_s = get-put_f32 pkt.wave_period_s [] f.wave_period_s i;
  roll_period_s = get-put_f32 pkt.roll_period_s [] f.roll_period_s i;
  roll_amplitude = get-put_f32 pkt.roll_amplitude [] f.roll_amplitude i;
  pitch_period_s = get-put_f32 pkt.pitch_period_s [] f.pitch_period_s i;
  pitch_amplitude = get-put_f32 pkt.pitch_amplitude [] f.pitch_amplitude i;
  mag_anomaly = get-put_f32 pkt.mag_anomaly [] f.mag_anomaly i;
  mag_residual = get-put_f32 pkt.mag_residual [] f.mag_residual i;
  innov_weight = get-put_f32 pkt.innov_weight [] f.innov_weight i;
  innov_reject = get-put_f32 pkt.innov_reject [] f.innov_reject i;
  nis_accel = get-put_f32 pkt.nis_accel [] f.nis_accel i;
  nis_mag = get-put_f32 pkt.nis_mag [] f.nis_mag i;
  flags_ext = get-put_u32 pkt.flags_ext [] f.flags_ext i;
  reserved = pkt.reserved;
  crc32 =
      get-put_u32 (crc32_ieee (packet_body pkt)) []
        (crc32_ieee-lt (packet_body pkt) (packet_body-AreBytes pkt f)) i;
}
