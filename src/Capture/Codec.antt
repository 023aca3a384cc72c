-- ===== src/Capture/Codec.antt =====
-- The serialisation of src/capture.c: each decoder undoes its encoder.
use imud.Prelude.{
  length-append, ℕ, drop_eq, zero, suc, ◌-◌, ◌≤◌, sym, take-append, ◌^◌, ◌<◌, ◌≡◌, refl, ap, ◌∙◌,
  [], ◌∷◌, ◌++◌, arith, length, take, drop, replicate,
}
use imud.Types.{Vec3}
use imud.Packet.RoundTrip.{FloatsFit}
use imud.Wire.{
  Bytes, u8, wire_get_u8, wire_put_u16, wire_put_u32, wire_put_u64, wire_get_u16, wire_get_u32,
  wire_get_u64, wire_get_f32,
}
use imud.Wire.Bytes.{get-put_u16, get-put_u32, get-put_u64}
use imud.Capture.{
  CapHeader, CapFrame, CapImuRec, CapMagRec, hdr_encode, hdr_decode, frame_encode, frame_decode,
  imu_rec_encode, imu_rec_decode, mag_rec_encode, mag_rec_decode, put_floats, get_floats,
}

u8-eq : (v : ℕ) → v < 2 ^ 8 → u8 v ≡ v
u8-eq v h = omega arith

-- Every field fits its C type.
pub record FrameFits (f : CapFrame) : Type 0 where
  pub kind : f.kind < 2 ^ 8
  pub flags : f.flags < 2 ^ 8
  pub len : f.len < 2 ^ 16
  pub mono_ns : f.mono_ns < 2 ^ 64

pub frame_decode-frame_encode : (f : CapFrame) → FrameFits f → frame_decode (frame_encode f) ≡ f
unfolding frame_decode frame_encode wire_get_u8 wire_get_u16
frame_decode-frame_encode f h i = record {
  kind = u8-eq f.kind h.kind i;
  flags = u8-eq f.flags h.flags i;
  len = get-put_u16 f.len [] h.len i;
  mono_ns = get-put_u64 f.mono_ns [] h.mono_ns i;
}

pub record ImuFits (r : CapImuRec) : Type 0 where
  pub accel : FloatsFit r.accel
  pub gyro : FloatsFit r.gyro
  pub temp_c : r.temp_c < 2 ^ 32
  pub chip_ts : r.chip_ts < 2 ^ 32
  pub seq : r.seq < 2 ^ 32

get_floats-put_floats : (v : Vec3) → FloatsFit v → get_floats (put_floats v) ≡ v
unfolding wire_get_f32 wire_get_u32
get_floats-put_floats v h i = record {
  x = get-put_u32 v.x [] h.0 i;
  y = get-put_u32 v.y [] h.1 i;
  z = get-put_u32 v.z [] h.2 i;
}

pub imu_rec_decode-imu_rec_encode :
    (r : CapImuRec) → ImuFits r → imu_rec_decode (imu_rec_encode r) ≡ r
unfolding imu_rec_decode imu_rec_encode wire_get_f32 wire_get_u32
imu_rec_decode-imu_rec_encode r h i = record {
  accel = get_floats-put_floats r.accel h.accel i;
  gyro = get_floats-put_floats r.gyro h.gyro i;
  temp_c = get-put_u32 r.temp_c [] h.temp_c i;
  chip_ts = get-put_u32 r.chip_ts [] h.chip_ts i;
  seq = get-put_u32 r.seq [] h.seq i;
}

pub record MagFits (r : CapMagRec) : Type 0 where
  pub field : FloatsFit r.field
  pub wall_ns : r.wall_ns < 2 ^ 64

pub mag_rec_decode-mag_rec_encode :
    (r : CapMagRec) → MagFits r → mag_rec_decode (mag_rec_encode r) ≡ r
unfolding mag_rec_decode mag_rec_encode wire_get_f32 wire_get_u32
mag_rec_decode-mag_rec_encode r h i = record {
  field = get_floats-put_floats r.field h.field i;
  wall_ns = get-put_u64 r.wall_ns [] h.wall_ns i;
}

-- Every field fits its C type, an array its length.
pub record HeaderFits (h : CapHeader) : Type 0 where
  pub magic : length h.magic ≡ 8
  pub version : h.version < 2 ^ 16
  pub hdr_len : h.hdr_len < 2 ^ 16
  pub imu_odr_hz : h.imu_odr_hz < 2 ^ 32
  pub imu_driver : length h.imu_driver ≡ 16
  pub mag_driver : length h.mag_driver ≡ 16
  pub imud_version : length h.imud_version ≡ 16
  pub t0_wall_ns : h.t0_wall_ns < 2 ^ 64
  pub t0_mono_ns : h.t0_mono_ns < 2 ^ 64
  pub imu_odr_mhz : h.imu_odr_mhz < 2 ^ 32
  pub file_flags : h.file_flags < 2 ^ 16

-- Behind a field of a known length.
behind : (m : ℕ) (p q : Bytes) (n : ℕ) → length p ≡ n → n ≤ m → drop m (p ++ q) ≡ drop (m - n) q
behind m [] q n l le = let e : m ≡ m - n = omega arith in ap (λ k. drop k q) e
behind zero (b ∷ p) q n l le = absurd (omega arith)
behind (suc m) (b ∷ p) q n l le =
    let e : m - (n - 1) ≡ suc m - n = omega arith in
    behind m p q (n - 1) (omega arith) (omega arith) ∙ ap (λ k. drop k q) e

front : (n : ℕ) (p q : Bytes) → length p ≡ n → take n (p ++ q) ≡ p
front n p q l = ap (λ m. take m (p ++ q)) (sym l) ∙ take-append p q

-- The header, from each of the three driver and version names on.
abbrev stamps : CapHeader → Bytes
stamps h =
    wire_put_u64 h.t0_wall_ns
    ++ wire_put_u64 h.t0_mono_ns
    ++ wire_put_u32 h.imu_odr_mhz
    ++ wire_put_u16 h.file_flags
    ++ replicate 18 0

abbrev from_version : CapHeader → Bytes
from_version h = h.imud_version ++ stamps h

abbrev from_mag : CapHeader → Bytes
from_mag h = h.mag_driver ++ from_version h

abbrev from_imu : CapHeader → Bytes
from_imu h = h.imu_driver ++ from_mag h

abbrev numbers : CapHeader → Bytes
numbers h = wire_put_u16 h.version ++ wire_put_u16 h.hdr_len ++ wire_put_u32 h.imu_odr_hz

abbrev from_numbers : CapHeader → Bytes
from_numbers h = numbers h ++ from_imu h

module _ (h : CapHeader) (fits : HeaderFits h) where
  -- A read behind the magic, and behind each name.
  at_numbers : (m : ℕ) → 8 ≤ m → drop m (hdr_encode h) ≡ drop (m - 8) (from_numbers h)
  unfolding hdr_encode
  at_numbers m le = behind m h.magic (from_numbers h) 8 fits.magic le

  magic_back : take 8 (hdr_encode h) ≡ h.magic
  unfolding hdr_encode
  magic_back = front 8 h.magic (from_numbers h) fits.magic

  at_mag : (m : ℕ) → 32 ≤ m → drop (m - 16) (from_imu h) ≡ drop (m - 32) (from_mag h)
  at_mag m le =
      behind (m - 16) h.imu_driver (from_mag h) 16 fits.imu_driver (omega arith)
      ∙ drop_eq (m - 16 - 16) (m - 32) (from_mag h) (omega arith)

  at_version : (m : ℕ) → 48 ≤ m → drop (m - 32) (from_mag h) ≡ drop (m - 48) (from_version h)
  at_version m le =
      behind (m - 32) h.mag_driver (from_version h) 16 fits.mag_driver (omega arith)
      ∙ drop_eq (m - 32 - 16) (m - 48) (from_version h) (omega arith)

  at_stamps : (m : ℕ) → 64 ≤ m → drop m (hdr_encode h) ≡ drop (m - 64) (stamps h)
  at_stamps m le =
      at_numbers m (omega arith)
      ∙ behind (m - 8) (numbers h) (from_imu h) 8 refl (omega arith)
      ∙ drop_eq (m - 8 - 8) (m - 16) (from_imu h) (omega arith)
      ∙ at_mag m (omega arith)
      ∙ at_version m (omega arith)
      ∙ behind (m - 48) h.imud_version (stamps h) 16 fits.imud_version (omega arith)
      ∙ drop_eq (m - 48 - 16) (m - 64) (stamps h) (omega arith)

  imu_driver_back : take 16 (drop 16 (hdr_encode h)) ≡ h.imu_driver
  imu_driver_back =
      ap (take 16) (at_numbers 16 (omega arith))
      ∙ front 16 h.imu_driver (from_mag h) fits.imu_driver

  mag_driver_back : take 16 (drop 32 (hdr_encode h)) ≡ h.mag_driver
  mag_driver_back =
      ap (take 16) (at_numbers 32 (omega arith) ∙ at_mag 32 (omega arith))
      ∙ front 16 h.mag_driver (from_version h) fits.mag_driver

  version_back : take 16 (drop 48 (hdr_encode h)) ≡ h.imud_version
  version_back =
      ap (take 16)
        (at_numbers 48 (omega arith) ∙ at_mag 48 (omega arith) ∙ at_version 48 (omega arith))
      ∙ front 16 h.imud_version (stamps h) fits.imud_version

  pub hdr_decode-hdr_encode : hdr_decode (hdr_encode h) ≡ h
  unfolding hdr_decode wire_get_u16 wire_get_u32 wire_get_u64
  hdr_decode-hdr_encode i = record {
    magic = magic_back i;
    version =
        (ap wire_get_u16 (at_numbers 8 (omega arith)) ∙ get-put_u16 h.version [] fits.version) i;
    hdr_len =
        (ap wire_get_u16 (at_numbers 10 (omega arith)) ∙ get-put_u16 h.hdr_len [] fits.hdr_len) i;
    imu_odr_hz =
        (ap wire_get_u32 (at_numbers 12 (omega arith))
            ∙ get-put_u32 h.imu_odr_hz [] fits.imu_odr_hz)
          i;
    imu_driver = imu_driver_back i;
    mag_driver = mag_driver_back i;
    imud_version = version_back i;
    t0_wall_ns =
        (ap wire_get_u64 (at_stamps 64 (omega arith)) ∙ get-put_u64 h.t0_wall_ns [] fits.t0_wall_ns)
          i;
    t0_mono_ns =
        (ap wire_get_u64 (at_stamps 72 (omega arith)) ∙ get-put_u64 h.t0_mono_ns [] fits.t0_mono_ns)
          i;
    imu_odr_mhz =
        (ap wire_get_u32 (at_stamps 80 (omega arith))
            ∙ get-put_u32 h.imu_odr_mhz [] fits.imu_odr_mhz)
          i;
    file_flags =
        (ap wire_get_u16 (at_stamps 84 (omega arith)) ∙ get-put_u16 h.file_flags [] fits.file_flags)
          i;
  }

  pub hdr_encode-length : length (hdr_encode h) ≡ 104
  unfolding hdr_encode
  hdr_encode-length = omega (
    arith,
    length-append h.magic (from_numbers h),
    length-append h.imu_driver (from_mag h),
    length-append h.mag_driver (from_version h),
    length-append h.imud_version (stamps h),
    fits.magic,
    fits.imu_driver,
    fits.mag_driver,
    fits.imud_version,
  )
