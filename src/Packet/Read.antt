-- ===== src/Packet/Read.antt =====
-- src/packet.c, `packet_decode`: the fields in wire order from a pointer that walks the buffer.
use imud.Prelude.{ℕ, drop}
use imud.Types.{Vec3, Mat3}
use imud.Wire.{Bytes, byte_at, wire_get_u16, wire_get_u32, wire_get_u64, wire_get_f32}
use imud.Packet.{Packet, Reserved}

-- What reads at `p` and moves it on.
abbrev pub Reader : Type 0 → Type 0
Reader A = Bytes → A × Bytes

infixl 5 ◌>>=◌
abbrev pub ◌>>=◌ : {A B : Type 0} → Reader A → (A → Reader B) → Reader B
◌>>=◌ m f p = f (m p).0 (m p).1

abbrev pub pure : {A : Type 0} → A → Reader A
pure a p = (a, p)

abbrev pub next_u16 : Reader ℕ
next_u16 p = (wire_get_u16 p, drop 2 p)

abbrev pub next_u32 : Reader ℕ
next_u32 p = (wire_get_u32 p, drop 4 p)

abbrev pub next_u64 : Reader ℕ
next_u64 p = (wire_get_u64 p, drop 8 p)

abbrev pub next_f32 : Reader ℕ
next_f32 p = (wire_get_f32 p, drop 4 p)

abbrev pub next_vec : Reader Vec3
next_vec = do x ← next_f32; y ← next_f32; z ← next_f32; pure (record { x = x; y = y; z = z })

-- `for (i = 0; i < 9; i++) { pkt->cov[i] = wire_get_f32(p); p += 4; }`, row by row.
abbrev pub next_mat : Reader Mat3
next_mat = do
  r0 ← next_vec
  r1 ← next_vec
  r2 ← next_vec
  pure (record { r0 = r0; r1 = r1; r2 = r2 })

-- `memcpy(pkt->reserved, p, 8); p += 8;`
abbrev pub next_reserved : Reader Reserved
next_reserved p = (
  record {
    b0 = byte_at p 0;
    b1 = byte_at p 1;
    b2 = byte_at p 2;
    b3 = byte_at p 3;
    b4 = byte_at p 4;
    b5 = byte_at p 5;
    b6 = byte_at p 6;
    b7 = byte_at p 7;
  },
  drop 8 p,
)

unfoldable pub read_packet : Reader Packet
read_packet = do
  magic ← next_u32
  version ← next_u16
  flags ← next_u16
  ts_wall_ns ← next_u64
  ts_tai_ns ← next_u64
  ts_chip_ticks ← next_u32
  anchor_gen ← next_u32
  accel_x ← next_f32
  accel_y ← next_f32
  accel_z ← next_f32
  accel_raw_x ← next_f32
  accel_raw_y ← next_f32
  accel_raw_z ← next_f32
  gyro_x ← next_f32
  gyro_y ← next_f32
  gyro_z ← next_f32
  gyro_raw_x ← next_f32
  gyro_raw_y ← next_f32
  gyro_raw_z ← next_f32
  mag_x ← next_f32
  mag_y ← next_f32
  mag_z ← next_f32
  mag_raw_x ← next_f32
  mag_raw_y ← next_f32
  mag_raw_z ← next_f32
  quat_w ← next_f32
  quat_x ← next_f32
  quat_y ← next_f32
  quat_z ← next_f32
  pitch ← next_f32
  roll ← next_f32
  yaw ← next_f32
  heading_deg ← next_f32
  rate_of_turn ← next_f32
  temp_c ← next_f32
  cov ← next_mat
  imu_seq ← next_u32
  declination_deg ← next_f32
  heave_m ← next_f32
  gyro_bias_x ← next_f32
  gyro_bias_y ← next_f32
  gyro_bias_z ← next_f32
  gyro_bias_var_x ← next_f32
  gyro_bias_var_y ← next_f32
  gyro_bias_var_z ← next_f32
  heave_rate ← next_f32
  accel_quiescence ← next_f32
  wave_height_m ← next_f32
  wave_period_s ← next_f32
  roll_period_s ← next_f32
  roll_amplitude ← next_f32
  pitch_period_s ← next_f32
  pitch_amplitude ← next_f32
  mag_anomaly ← next_f32
  mag_residual ← next_f32
  innov_weight ← next_f32
  innov_reject ← next_f32
  nis_accel ← next_f32
  nis_mag ← next_f32
  flags_ext ← next_u32
  reserved ← next_reserved
  crc32 ← next_u32
  pure (record {
    magic = magic;
    version = version;
    flags = flags;
    ts_wall_ns = ts_wall_ns;
    ts_tai_ns = ts_tai_ns;
    ts_chip_ticks = ts_chip_ticks;
    anchor_gen = anchor_gen;
    accel_x = accel_x;
    accel_y = accel_y;
    accel_z = accel_z;
    accel_raw_x = accel_raw_x;
    accel_raw_y = accel_raw_y;
    accel_raw_z = accel_raw_z;
    gyro_x = gyro_x;
    gyro_y = gyro_y;
    gyro_z = gyro_z;
    gyro_raw_x = gyro_raw_x;
    gyro_raw_y = gyro_raw_y;
    gyro_raw_z = gyro_raw_z;
    mag_x = mag_x;
    mag_y = mag_y;
    mag_z = mag_z;
    mag_raw_x = mag_raw_x;
    mag_raw_y = mag_raw_y;
    mag_raw_z = mag_raw_z;
    quat_w = quat_w;
    quat_x = quat_x;
    quat_y = quat_y;
    quat_z = quat_z;
    pitch = pitch;
    roll = roll;
    yaw = yaw;
    heading_deg = heading_deg;
    rate_of_turn = rate_of_turn;
    temp_c = temp_c;
    cov = cov;
    imu_seq = imu_seq;
    declination_deg = declination_deg;
    heave_m = heave_m;
    gyro_bias_x = gyro_bias_x;
    gyro_bias_y = gyro_bias_y;
    gyro_bias_z = gyro_bias_z;
    gyro_bias_var_x = gyro_bias_var_x;
    gyro_bias_var_y = gyro_bias_var_y;
    gyro_bias_var_z = gyro_bias_var_z;
    heave_rate = heave_rate;
    accel_quiescence = accel_quiescence;
    wave_height_m = wave_height_m;
    wave_period_s = wave_period_s;
    roll_period_s = roll_period_s;
    roll_amplitude = roll_amplitude;
    pitch_period_s = pitch_period_s;
    pitch_amplitude = pitch_amplitude;
    mag_anomaly = mag_anomaly;
    mag_residual = mag_residual;
    innov_weight = innov_weight;
    innov_reject = innov_reject;
    nis_accel = nis_accel;
    nis_mag = nis_mag;
    flags_ext = flags_ext;
    reserved = reserved;
    crc32 = crc32;
  })

unfoldable pub packet_decode : Bytes → Packet
unfolding read_packet
packet_decode p = (read_packet p).0
