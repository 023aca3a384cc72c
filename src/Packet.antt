-- ===== src/Packet.antt =====
-- src/packet.c: the 288-byte binary packet. `imu_packet_t` in host order, how it is built from the
-- fused state, and both directions of its wire form, field by field in wire order. A float is its
-- bit pattern; the fields after a blank line of the source stand in one group here.
pub mod Build
pub mod Read
pub mod RoundTrip
use imud.Prelude.{ℕ, List, [], ◌∷◌, ◌++◌}
use imud.Types.{Vec3, Mat3}
use imud.Wire.{Bytes, wire_put_u16, wire_put_u32, wire_put_u64, wire_put_f32, crc32_ieee}

abbrev pub imud_magic : ℕ
imud_magic = 0x494D5544

abbrev pub imud_version : ℕ
imud_version = 18

-- `uint8_t reserved[8]`
pub record Reserved : Type 0 where
  pub b0 : ℕ
  pub b1 : ℕ
  pub b2 : ℕ
  pub b3 : ℕ
  pub b4 : ℕ
  pub b5 : ℕ
  pub b6 : ℕ
  pub b7 : ℕ

abbrev pub blank_reserved : Reserved
blank_reserved = record { b0 = 0; b1 = 0; b2 = 0; b3 = 0; b4 = 0; b5 = 0; b6 = 0; b7 = 0 }

-- `imu_packet_t`
pub record Packet : Type 0 where
  pub magic : ℕ
  pub version : ℕ
  pub flags : ℕ
  pub ts_wall_ns : ℕ
  pub ts_tai_ns : ℕ
  pub ts_chip_ticks : ℕ
  pub anchor_gen : ℕ
  pub accel_x : ℕ
  pub accel_y : ℕ
  pub accel_z : ℕ
  pub accel_raw_x : ℕ
  pub accel_raw_y : ℕ
  pub accel_raw_z : ℕ
  pub gyro_x : ℕ
  pub gyro_y : ℕ
  pub gyro_z : ℕ
  pub gyro_raw_x : ℕ
  pub gyro_raw_y : ℕ
  pub gyro_raw_z : ℕ
  pub mag_x : ℕ
  pub mag_y : ℕ
  pub mag_z : ℕ
  pub mag_raw_x : ℕ
  pub mag_raw_y : ℕ
  pub mag_raw_z : ℕ
  pub quat_w : ℕ
  pub quat_x : ℕ
  pub quat_y : ℕ
  pub quat_z : ℕ
  pub pitch : ℕ
  pub roll : ℕ
  pub yaw : ℕ
  pub heading_deg : ℕ
  pub rate_of_turn : ℕ
  pub temp_c : ℕ
  pub cov : Mat3
  pub imu_seq : ℕ
  pub declination_deg : ℕ
  pub heave_m : ℕ
  pub gyro_bias_x : ℕ
  pub gyro_bias_y : ℕ
  pub gyro_bias_z : ℕ
  pub gyro_bias_var_x : ℕ
  pub gyro_bias_var_y : ℕ
  pub gyro_bias_var_z : ℕ
  pub heave_rate : ℕ
  pub accel_quiescence : ℕ
  pub wave_height_m : ℕ
  pub wave_period_s : ℕ
  pub roll_period_s : ℕ
  pub roll_amplitude : ℕ
  pub pitch_period_s : ℕ
  pub pitch_amplitude : ℕ
  pub mag_anomaly : ℕ
  pub mag_residual : ℕ
  pub innov_weight : ℕ
  pub innov_reject : ℕ
  pub nis_accel : ℕ
  pub nis_mag : ℕ
  pub flags_ext : ℕ
  pub reserved : Reserved
  pub crc32 : ℕ

-- The pieces that the encoder writes one after another.
abbrev pub concat : List Bytes → Bytes
concat [] = []
concat (c ∷ cs) = c ++ concat cs

abbrev pub put_vec : Vec3 → Bytes
put_vec v = wire_put_f32 v.x ++ (wire_put_f32 v.y ++ wire_put_f32 v.z)

-- `for (i = 0; i < 9; i++) { wire_put_f32(p, cov[i]); p += 4; }`, row by row.
abbrev pub put_mat : Mat3 → Bytes
put_mat m = put_vec m.r0 ++ (put_vec m.r1 ++ put_vec m.r2)

-- `memcpy(p, pkt->reserved, 8)`
abbrev pub put_reserved : Reserved → Bytes
put_reserved r = r.b0 ∷ r.b1 ∷ r.b2 ∷ r.b3 ∷ r.b4 ∷ r.b5 ∷ r.b6 ∷ r.b7 ∷ []

-- The bytes 0 to 283.
unfoldable pub packet_body : Packet → Bytes
packet_body pkt = concat (
    wire_put_u32 pkt.magic
    ∷ wire_put_u16 pkt.version
    ∷ wire_put_u16 pkt.flags
    ∷ wire_put_u64 pkt.ts_wall_ns
    ∷ wire_put_u64 pkt.ts_tai_ns
    ∷ wire_put_u32 pkt.ts_chip_ticks
    ∷ wire_put_u32 pkt.anchor_gen
    ∷ wire_put_f32 pkt.accel_x
    ∷ wire_put_f32 pkt.accel_y
    ∷ wire_put_f32 pkt.accel_z
    ∷ wire_put_f32 pkt.accel_raw_x
    ∷ wire_put_f32 pkt.accel_raw_y
    ∷ wire_put_f32 pkt.accel_raw_z
    ∷ wire_put_f32 pkt.gyro_x
    ∷ wire_put_f32 pkt.gyro_y
    ∷ wire_put_f32 pkt.gyro_z
    ∷ wire_put_f32 pkt.gyro_raw_x
    ∷ wire_put_f32 pkt.gyro_raw_y
    ∷ wire_put_f32 pkt.gyro_raw_z
    ∷ wire_put_f32 pkt.mag_x
    ∷ wire_put_f32 pkt.mag_y
    ∷ wire_put_f32 pkt.mag_z
    ∷ wire_put_f32 pkt.mag_raw_x
    ∷ wire_put_f32 pkt.mag_raw_y
    ∷ wire_put_f32 pkt.mag_raw_z
    ∷ wire_put_f32 pkt.quat_w
    ∷ wire_put_f32 pkt.quat_x
    ∷ wire_put_f32 pkt.quat_y
    ∷ wire_put_f32 pkt.quat_z
    ∷ wire_put_f32 pkt.pitch
    ∷ wire_put_f32 pkt.roll
    ∷ wire_put_f32 pkt.yaw
    ∷ wire_put_f32 pkt.heading_deg
    ∷ wire_put_f32 pkt.rate_of_turn
    ∷ wire_put_f32 pkt.temp_c
    ∷ put_mat pkt.cov
    ∷ wire_put_u32 pkt.imu_seq
    ∷ wire_put_f32 pkt.declination_deg
    ∷ wire_put_f32 pkt.heave_m
    ∷ wire_put_f32 pkt.gyro_bias_x
    ∷ wire_put_f32 pkt.gyro_bias_y
    ∷ wire_put_f32 pkt.gyro_bias_z
    ∷ wire_put_f32 pkt.gyro_bias_var_x
    ∷ wire_put_f32 pkt.gyro_bias_var_y
    ∷ wire_put_f32 pkt.gyro_bias_var_z
    ∷ wire_put_f32 pkt.heave_rate
    ∷ wire_put_f32 pkt.accel_quiescence
    ∷ wire_put_f32 pkt.wave_height_m
    ∷ wire_put_f32 pkt.wave_period_s
    ∷ wire_put_f32 pkt.roll_period_s
    ∷ wire_put_f32 pkt.roll_amplitude
    ∷ wire_put_f32 pkt.pitch_period_s
    ∷ wire_put_f32 pkt.pitch_amplitude
    ∷ wire_put_f32 pkt.mag_anomaly
    ∷ wire_put_f32 pkt.mag_residual
    ∷ wire_put_f32 pkt.innov_weight
    ∷ wire_put_f32 pkt.innov_reject
    ∷ wire_put_f32 pkt.nis_accel
    ∷ wire_put_f32 pkt.nis_mag
    ∷ wire_put_u32 pkt.flags_ext
    ∷ put_reserved pkt.reserved
    ∷ [])

-- `packet_encode`: the wire bytes, and the CRC that is returned.
unfoldable pub packet_encode : Packet → Bytes × ℕ
packet_encode pkt =
    let body = packet_body pkt in let crc = crc32_ieee body in (body ++ wire_put_u32 crc, crc)
