-- ===== src/Client/Data.antt =====
-- lib/libimud.c, `fill_data`, and lib/imud_client.h, `imud_true_heading`: the view of a packet that
-- the library hands out. Float arithmetic is the machine's, a parameter over bit patterns.
use imud.Prelude.{ℕ, zero, suc, ◌^◌, Bool, not, ◌&&◌, ◌==◌, if◌then◌else◌, bit_and}
use imud.Types.{Vec3, Mat3}
use imud.Packet.{Packet}

-- IEEE single precision: what the helper uses of it.
pub record FloatOps : Type 0 where
  pub add : ℕ → ℕ → ℕ
  pub sub : ℕ → ℕ → ℕ
  pub gt : ℕ → ℕ → Bool
  pub lt : ℕ → ℕ → Bool
  pub ge : ℕ → ℕ → Bool

-- The literals `-1.0f`, `720.0f`, `-720.0f` and `360.0f`.
abbrev pub minus_one : ℕ
minus_one = 0xBF800000

abbrev pub f720 : ℕ
f720 = 0x44340000

abbrev pub minus_f720 : ℕ
minus_f720 = 0xC4340000

abbrev pub f360 : ℕ
f360 = 0x43B40000

-- `IMUD_FLAG_DECLINATION_VALID`
abbrev pub imud_flag_declination_valid : ℕ
imud_flag_declination_valid = 2 ^ 10

-- `while (h >= 360.0f) h -= 360.0f;`, with fuel.
unfoldable pub into_turn : FloatOps → ℕ → ℕ → ℕ
into_turn ops zero h = h
into_turn ops (suc n) h =
    let again = into_turn ops n (ops.sub h f360) in if ops.ge h f360 then again else h

unfoldable pub imud_true_heading : FloatOps → Packet → ℕ
unfolding into_turn
imud_true_heading ops pkt =
    let h = ops.add pkt.heading_deg pkt.declination_deg in
    if bit_and pkt.flags imud_flag_declination_valid == 0
    then minus_one
    else if not (ops.gt h minus_f720 && ops.lt h f720)
    then minus_one
    else into_turn ops 3 (ops.add h f720)

-- `imud_data_t`; `quat[4]` is quat_w to quat_z.
pub record ImudData : Type 0 where
  pub ts_wall_ns : ℕ
  pub ts_tai_ns : ℕ
  pub ts_chip_ticks : ℕ
  pub anchor_gen : ℕ
  pub flags : ℕ
  pub imu_seq : ℕ
  pub accel : Vec3
  pub accel_raw : Vec3
  pub gyro : Vec3
  pub gyro_raw : Vec3
  pub mag : Vec3
  pub mag_raw : Vec3
  pub quat_w : ℕ
  pub quat_x : ℕ
  pub quat_y : ℕ
  pub quat_z : ℕ
  pub pitch : ℕ
  pub roll : ℕ
  pub yaw : ℕ
  pub heading_deg : ℕ
  pub heading_true_deg : ℕ
  pub rate_of_turn : ℕ
  pub temp_c : ℕ
  pub cov : Mat3
  pub declination_deg : ℕ
  pub heave_m : ℕ
  pub heave_rate : ℕ
  pub gyro_bias : Vec3
  pub gyro_bias_var : Vec3
  pub accel_quiescence : ℕ
  pub wave_height_m : ℕ
  pub wave_period_s : ℕ
  pub roll_period_s : ℕ
  pub roll_amplitude : ℕ
  pub pitch_period_s : ℕ
  pub pitch_amplitude : ℕ
  pub mag_anomaly : ℕ
  pub mag_residual : ℕ
  pub innov_weight : ℕ
  pub innov_reject : ℕ
  pub nis_accel : ℕ
  pub nis_mag : ℕ
  pub flags_ext : ℕ

unfoldable pub fill_data : FloatOps → Packet → ImudData
unfolding imud_true_heading
fill_data ops p = record {
  ts_wall_ns = p.ts_wall_ns;
  ts_tai_ns = p.ts_tai_ns;
  ts_chip_ticks = p.ts_chip_ticks;
  anchor_gen = p.anchor_gen;
  flags = p.flags;
  imu_seq = p.imu_seq;
  accel = record { x = p.accel_x; y = p.accel_y; z = p.accel_z };
  accel_raw = record { x = p.accel_raw_x; y = p.accel_raw_y; z = p.accel_raw_z };
  gyro = record { x = p.gyro_x; y = p.gyro_y; z = p.gyro_z };
  gyro_raw = record { x = p.gyro_raw_x; y = p.gyro_raw_y; z = p.gyro_raw_z };
  mag = record { x = p.mag_x; y = p.mag_y; z = p.mag_z };
  mag_raw = record { x = p.mag_raw_x; y = p.mag_raw_y; z = p.mag_raw_z };
  quat_w = p.quat_w;
  quat_x = p.quat_x;
  quat_y = p.quat_y;
  quat_z = p.quat_z;
  pitch = p.pitch;
  roll = p.roll;
  yaw = p.yaw;
  heading_deg = p.heading_deg;
  heading_true_deg = imud_true_heading ops p;
  rate_of_turn = p.rate_of_turn;
  temp_c = p.temp_c;
  cov = p.cov;
  declination_deg = p.declination_deg;
  heave_m = p.heave_m;
  heave_rate = p.heave_rate;
  gyro_bias = record { x = p.gyro_bias_x; y = p.gyro_bias_y; z = p.gyro_bias_z };
  gyro_bias_var = record { x = p.gyro_bias_var_x; y = p.gyro_bias_var_y; z = p.gyro_bias_var_z };
  accel_quiescence = p.accel_quiescence;
  wave_height_m = p.wave_height_m;
  wave_period_s = p.wave_period_s;
  roll_period_s = p.roll_period_s;
  roll_amplitude = p.roll_amplitude;
  pitch_period_s = p.pitch_period_s;
  pitch_amplitude = p.pitch_amplitude;
  mag_anomaly = p.mag_anomaly;
  mag_residual = p.mag_residual;
  innov_weight = p.innov_weight;
  innov_reject = p.innov_reject;
  nis_accel = p.nis_accel;
  nis_mag = p.nis_mag;
  flags_ext = p.flags_ext;
}
