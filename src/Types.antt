-- ===== src/Types.antt =====
-- include/types.h: the sample and state structures. A float is its 32-bit pattern, a `float[3]` a
-- triple of them, an integer field the number that it holds.
use imud.Prelude.{ℕ, Bool, false}

pub record Vec3 : Type 0 where
  pub x : ℕ
  pub y : ℕ
  pub z : ℕ

-- A `float[9]`, row by row.
pub record Mat3 : Type 0 where
  pub r0 : Vec3
  pub r1 : Vec3
  pub r2 : Vec3

-- `imu_sample_t`
pub record ImuSample : Type 0 where
  pub accel : Vec3
  pub accel_raw : Vec3
  pub gyro : Vec3
  pub temp_c : ℕ
  pub chip_ts : ℕ
  pub seq : ℕ
  pub read_done_ns : ℕ
  pub host_done_ns : ℕ

-- `mag_sample_t`
pub record MagSample : Type 0 where
  pub field : Vec3
  pub field_raw : Vec3
  pub wall_ns : ℕ
  pub valid : Bool
  pub calibrated : Bool

-- `fused_state_t`; `q[4]` is q_w to q_z.
pub record FusedState : Type 0 where
  pub q_w : ℕ
  pub q_x : ℕ
  pub q_y : ℕ
  pub q_z : ℕ
  pub bias_gyro : Vec3
  pub cov : Mat3
  pub pitch : ℕ
  pub roll : ℕ
  pub yaw : ℕ
  pub heading_deg : ℕ
  pub declination_deg : ℕ
  pub rate_of_turn : ℕ
  pub heave_m : ℕ
  pub heave_rate : ℕ
  pub bias_gyro_var : Vec3
  pub quiescence : ℕ
  pub wave_height_m : ℕ
  pub wave_period_s : ℕ
  pub roll_period_s : ℕ
  pub roll_amplitude : ℕ
  pub pitch_period_s : ℕ
  pub pitch_amplitude : ℕ
  pub mag_anomaly : ℕ
  pub mag_residual : ℕ
  pub innov_weight : ℕ
  pub innov_reject : ℕ
  pub nis_accel : ℕ
  pub nis_mag : ℕ
  pub flags : ℕ
  pub flags_ext : ℕ
  pub imu_seq : ℕ
  pub ts_wall_ns : ℕ
  pub ts_tai_ns : ℕ
  pub ts_chip_ticks : ℕ
  pub anchor_gen : ℕ

-- What `memset(…, 0, …)` leaves in one.
abbrev pub blank_vec : Vec3
blank_vec = record { x = 0; y = 0; z = 0 }

abbrev pub blank_imu : ImuSample
blank_imu = record {
  accel = blank_vec;
  accel_raw = blank_vec;
  gyro = blank_vec;
  temp_c = 0;
  chip_ts = 0;
  seq = 0;
  read_done_ns = 0;
  host_done_ns = 0;
}

abbrev pub blank_mag : MagSample
blank_mag = record {
  field = blank_vec;
  field_raw = blank_vec;
  wall_ns = 0;
  valid = false;
  calibrated = false;
}
