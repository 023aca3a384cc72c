-- ===== src/Client/Decode.antt =====
-- lib/imud_client.h: the decoder that a client compiles in, with its own copies of the loads, which
-- the header keeps so that it stands alone.
use imud.Prelude.{ℕ, drop, bit_or}
use imud.Types.{Vec3, Mat3}
use imud.Wire.{Bytes, byte_at, u16, shl}
use imud.Packet.{Packet, Reserved}
use imud.Packet.Read.{Reader, ◌>>=◌, pure}

unfoldable pub imud__ld16 : Bytes → ℕ
imud__ld16 p = u16 (bit_or (byte_at p 0) (shl (byte_at p 1) 8))

unfoldable pub imud__ld32 : Bytes → ℕ
imud__ld32 p =
    bit_or (bit_or (bit_or (byte_at p 0) (shl (byte_at p 1) 8)) (shl (byte_at p 2) 16))
      (shl (byte_at p 3) 24)

unfoldable pub imud__ld64 : Bytes → ℕ
imud__ld64 p =
    let a = bit_or (bit_or (byte_at p 0) (shl (byte_at p 1) 8)) (shl (byte_at p 2) 16) in
    let b = bit_or (bit_or a (shl (byte_at p 3) 24)) (shl (byte_at p 4) 32) in
    let c = bit_or (bit_or b (shl (byte_at p 5) 40)) (shl (byte_at p 6) 48) in
    bit_or c (shl (byte_at p 7) 56)

unfoldable pub imud__ldf : Bytes → ℕ
imud__ldf = imud__ld32

abbrev pub load_u16 : Reader ℕ
load_u16 p = (imud__ld16 p, drop 2 p)

abbrev pub load_u32 : Reader ℕ
load_u32 p = (imud__ld32 p, drop 4 p)

abbrev pub load_u64 : Reader ℕ
load_u64 p = (imud__ld64 p, drop 8 p)

abbrev pub load_f32 : Reader ℕ
load_f32 p = (imud__ldf p, drop 4 p)

abbrev pub load_vec : Reader Vec3
load_vec = do x ← load_f32; y ← load_f32; z ← load_f32; pure (record { x = x; y = y; z = z })

-- `for (i = 0; i < 9; i++) { pkt->cov[i] = imud__ldf(p); p += 4; }`, row by row.
abbrev pub load_mat : Reader Mat3
load_mat = do
  r0 ← load_vec
  r1 ← load_vec
  r2 ← load_vec
  pure (record { r0 = r0; r1 = r1; r2 = r2 })

-- `for (i = 0; i < 8; i++) pkt->reserved[i] = p[i]; p += 8;`
abbrev pub load_reserved : Reader Reserved
load_reserved p = (
  record {
    b0 = byte_at p 0;
    b1 = byte_at p 1;
    b2 = byte_at p 2;
    b3 = byte_at p 3;
    b4 = byte_at p 4;
    b5 = byte_at p 5;
    b6 = byte_at p 6;
    b7 = byte_at p 7;
  },
  drop 8 p,
)

unfoldable pub load_packet : Reader Packet
load_packet = do
  magic ← load_u32
  version ← load_u16
  flags ← load_u16
  ts_wall_ns ← load_u64
  ts_tai_ns ← load_u64
  ts_chip_ticks ← load_u32
  anchor_gen ← load_u32
  accel_x ← load_f32
  accel_y ← load_f32
  accel_z ← load_f32
  accel_raw_x ← load_f32
  accel_raw_y ← load_f32
  accel_raw_z ← load_f32
  gyro_x ← load_f32
  gyro_y ← load_f32
  gyro_z ← load_f32
  gyro_raw_x ← load_f32
  gyro_raw_y ← load_f32
  gyro_raw_z ← load_f32
  mag_x ← load_f32
  mag_y ← load_f32
  mag_z ← load_f32
  mag_raw_x ← load_f32
  mag_raw_y ← load_f32
  mag_raw_z ← load_f32
  quat_w ← load_f32
  quat_x ← load_f32
  quat_y ← load_f32
  quat_z ← load_f32
  pitch ← load_f32
  roll ← load_f32
  yaw ← load_f32
  heading_deg ← load_f32
  rate_of_turn ← load_f32
  temp_c ← load_f32
  cov ← load_mat
  imu_seq ← load_u32
  declination_deg ← load_f32
  heave_m ← load_f32
  gyro_bias_x ← load_f32
  gyro_bias_y ← load_f32
  gyro_bias_z ← load_f32
  gyro_bias_var_x ← load_f32
  gyro_bias_var_y ← load_f32
  gyro_bias_var_z ← load_f32
  heave_rate ← load_f32
  accel_quiescence ← load_f32
  wave_height_m ← load_f32
  wave_period_s ← load_f32
  roll_period_s ← load_f32
  roll_amplitude ← load_f32
  pitch_period_s ← load_f32
  pitch_amplitude ← load_f32
  mag_anomaly ← load_f32
  mag_residual ← load_f32
  innov_weight ← load_f32
  innov_reject ← load_f32
  nis_accel ← load_f32
  nis_mag ← load_f32
  flags_ext ← load_u32
  reserved ← load_reserved
  crc32 ← load_u32
  pure (record {
    magic = magic;
    version = version;
    flags = flags;
    ts_wall_ns = ts_wall_ns;
    ts_tai_ns = ts_tai_ns;
    ts_chip_ticks = ts_chip_ticks;
    anchor_gen = anchor_gen;
    accel_x = accel_x;
    accel_y = accel_y;
    accel_z = accel_z;
    accel_raw_x = accel_raw_x;
    accel_raw_y = accel_raw_y;
    accel_raw_z = accel_raw_z;
    gyro_x = gyro_x;
    gyro_y = gyro_y;
    gyro_z = gyro_z;
    gyro_raw_x = gyro_raw_x;
    gyro_raw_y = gyro_raw_y;
    gyro_raw_z = gyro_raw_z;
    mag_x = mag_x;
    mag_y = mag_y;
    mag_z = mag_z;
    mag_raw_x = mag_raw_x;
    mag_raw_y = mag_raw_y;
    mag_raw_z = mag_raw_z;
    quat_w = quat_w;
    quat_x = quat_x;
    quat_y = quat_y;
    quat_z = quat_z;
    pitch = pitch;
    roll = roll;
    yaw = yaw;
    heading_deg = heading_deg;
    rate_of_turn = rate_of_turn;
    temp_c = temp_c;
    cov = cov;
    imu_seq = imu_seq;
    declination_deg = declination_deg;
    heave_m = heave_m;
    gyro_bias_x = gyro_bias_x;
    gyro_bias_y = gyro_bias_y;
    gyro_bias_z = gyro_bias_z;
    gyro_bias_var_x = gyro_bias_var_x;
    gyro_bias_var_y = gyro_bias_var_y;
    gyro_bias_var_z = gyro_bias_var_z;
    heave_rate = heave_rate;
    accel_quiescence = accel_quiescence;
    wave_height_m = wave_height_m;
    wave_period_s = wave_period_s;
    roll_period_s = roll_period_s;
    roll_amplitude = roll_amplitude;
    pitch_period_s = pitch_period_s;
    pitch_amplitude = pitch_amplitude;
    mag_anomaly = mag_anomaly;
    mag_residual = mag_residual;
    innov_weight = innov_weight;
    innov_reject = innov_reject;
    nis_accel = nis_accel;
    nis_mag = nis_mag;
    flags_ext = flags_ext;
    reserved = reserved;
    crc32 = crc32;
  })

unfoldable pub imud_packet_decode : Bytes → Packet
unfolding load_packet
imud_packet_decode p = (load_packet p).0
