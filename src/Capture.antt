-- ===== src/Capture.antt =====
-- include/capture.h and the serialisation of src/capture.c: the .imucap file, which holds the raw
-- samples of a run. A `char[16]` is the list of its bytes.
pub mod Writer
pub mod Reader
pub mod Codec
pub mod Payload
pub mod Checked
pub mod Entries
pub mod Replay
pub mod Damage
pub mod Progress
pub mod Session
pub mod Tap
mod Tests
use imud.Prelude.{ℕ, ◌++◌, List, [], ◌∷◌, length, take, drop, replicate}
use imud.Types.{Vec3, ImuSample, MagSample}
use imud.Wire.{
  Bytes, wire_put_u8, wire_put_u16, wire_put_u32, wire_put_u64, wire_put_f32, wire_get_u8,
  wire_get_u16, wire_get_u32, wire_get_u64, wire_get_f32,
}

-- `cap_header_t`, without the reserved tail.
pub record CapHeader : Type 0 where
  pub magic : Bytes
  pub version : ℕ
  pub hdr_len : ℕ
  pub imu_odr_hz : ℕ
  pub imu_driver : Bytes
  pub mag_driver : Bytes
  pub imud_version : Bytes
  pub t0_wall_ns : ℕ
  pub t0_mono_ns : ℕ
  pub imu_odr_mhz : ℕ
  pub file_flags : ℕ

-- `cap_frame_t`
pub record CapFrame : Type 0 where
  pub kind : ℕ
  pub flags : ℕ
  pub len : ℕ
  pub mono_ns : ℕ

-- `cap_imu_rec_t`
pub record CapImuRec : Type 0 where
  pub accel : Vec3
  pub gyro : Vec3
  pub temp_c : ℕ
  pub chip_ts : ℕ
  pub seq : ℕ

-- `cap_mag_rec_t`
pub record CapMagRec : Type 0 where
  pub field : Vec3
  pub wall_ns : ℕ

-- `CAP_MAGIC` with its NUL.
abbrev pub cap_magic : Bytes
cap_magic = 0x49 ∷ 0x4D ∷ 0x55 ∷ 0x43 ∷ 0x41 ∷ 0x50 ∷ 0x31 ∷ 0 ∷ []

abbrev pub cap_fmt_version : ℕ
cap_fmt_version = 1

-- `sizeof(cap_header_t)`
abbrev pub cap_header_size : ℕ
cap_header_size = 104

abbrev pub cap_hf_crc32 : ℕ
cap_hf_crc32 = 1

abbrev pub cap_rec_imu : ℕ
cap_rec_imu = 1

abbrev pub cap_rec_mag : ℕ
cap_rec_mag = 2

abbrev pub cap_rec_mark : ℕ
cap_rec_mark = 3

abbrev pub cap_magf_valid : ℕ
cap_magf_valid = 1

abbrev pub cap_f_crc32 : ℕ
cap_f_crc32 = 0x80

unfoldable pub hdr_encode : CapHeader → Bytes
hdr_encode h =
    let numbers = wire_put_u16 h.version ++ wire_put_u16 h.hdr_len ++ wire_put_u32 h.imu_odr_hz in
    let stamps =
      wire_put_u64 h.t0_wall_ns
      ++ wire_put_u64 h.t0_mono_ns
      ++ wire_put_u32 h.imu_odr_mhz
      ++ wire_put_u16 h.file_flags
      ++ replicate 18 0 in
    h.magic ++ (numbers ++ (h.imu_driver ++ (h.mag_driver ++ (h.imud_version ++ stamps))))

unfoldable pub hdr_decode : Bytes → CapHeader
hdr_decode b = record {
  magic = take 8 b;
  version = wire_get_u16 (drop 8 b);
  hdr_len = wire_get_u16 (drop 10 b);
  imu_odr_hz = wire_get_u32 (drop 12 b);
  imu_driver = take 16 (drop 16 b);
  mag_driver = take 16 (drop 32 b);
  imud_version = take 16 (drop 48 b);
  t0_wall_ns = wire_get_u64 (drop 64 b);
  t0_mono_ns = wire_get_u64 (drop 72 b);
  imu_odr_mhz = wire_get_u32 (drop 80 b);
  file_flags = wire_get_u16 (drop 84 b);
}

unfoldable pub frame_encode : CapFrame → Bytes
frame_encode f =
    wire_put_u8 f.kind ++ wire_put_u8 f.flags ++ wire_put_u16 f.len ++ wire_put_u64 f.mono_ns

unfoldable pub frame_decode : Bytes → CapFrame
frame_decode b = record {
  kind = wire_get_u8 b;
  flags = wire_get_u8 (drop 1 b);
  len = wire_get_u16 (drop 2 b);
  mono_ns = wire_get_u64 (drop 4 b);
}

-- `for (i = 0; i < 3; i++) wire_put_f32(b + 4 * i, v[i])`
abbrev pub put_floats : Vec3 → Bytes
put_floats v = wire_put_f32 v.x ++ wire_put_f32 v.y ++ wire_put_f32 v.z

-- `for (i = 0; i < 3; i++) v[i] = wire_get_f32(b + 4 * i)`
abbrev pub get_floats : Bytes → Vec3
get_floats b = record {
  x = wire_get_f32 b;
  y = wire_get_f32 (drop 4 b);
  z = wire_get_f32 (drop 8 b);
}

unfoldable pub imu_rec_encode : CapImuRec → Bytes
imu_rec_encode r =
    put_floats r.accel
    ++ put_floats r.gyro
    ++ wire_put_f32 r.temp_c
    ++ wire_put_u32 r.chip_ts
    ++ wire_put_u32 r.seq

unfoldable pub imu_rec_decode : Bytes → CapImuRec
imu_rec_decode b = record {
  accel = get_floats b;
  gyro = get_floats (drop 12 b);
  temp_c = wire_get_f32 (drop 24 b);
  chip_ts = wire_get_u32 (drop 28 b);
  seq = wire_get_u32 (drop 32 b);
}

unfoldable pub mag_rec_encode : CapMagRec → Bytes
mag_rec_encode r = put_floats r.field ++ wire_put_u64 r.wall_ns

unfoldable pub mag_rec_decode : Bytes → CapMagRec
mag_rec_decode b = record { field = get_floats b; wall_ns = wire_get_u64 (drop 12 b) }

-- `cap_record_t`
pub record CapRecord : Type 0 where
  pub kind : ℕ
  pub mono_ns : ℕ
  pub imu : ImuSample
  pub mag : MagSample
  pub mark : ℕ
