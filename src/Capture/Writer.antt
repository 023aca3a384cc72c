-- ===== src/Capture/Writer.antt =====
-- src/capture.c, the writer. A stream takes bytes until its room is used up; `fwrite` then takes
-- what it can and reports a short count.
use imud.Prelude.{
  ℕ, ◌+◌, ◌-◌, Bool, true, false, List, [], ◌∷◌, ◌++◌, Option, none, some, length, take, replicate,
  min, leb, if◌then◌else◌, bit_or,
}
use imud.Types.{ImuSample, MagSample}
use imud.Wire.{Bytes, u8, u16, u64, wire_put_u32, crc32_init, crc32_ieee_update, crc32_ieee_final}
use imud.Capture.{
  CapHeader, CapFrame, CapImuRec, CapMagRec, cap_magic, cap_fmt_version, cap_header_size,
  cap_hf_crc32, cap_rec_imu, cap_rec_mag, cap_rec_mark, cap_magf_valid, cap_f_crc32, hdr_encode,
  frame_encode, imu_rec_encode, mag_rec_encode,
}

-- A `FILE` open for writing: the bytes it has taken, and how many more it takes.
pub record OutFile : Type 0 where
  pub written : Bytes
  pub room : ℕ

-- `fwrite(p, n, 1, f)`, and whether it returned 1.
unfoldable pub fwrite : Bytes → OutFile → OutFile × Bool
fwrite p f =
    if leb (length p) f.room
    then (record { written = f.written ++ p; room = f.room - length p }, true)
    else (record { written = f.written ++ take f.room p; room = 0 }, false)

-- `cap_writer_t`; the file is `none` for NULL.
pub record CapWriter : Type 0 where
  pub file : Option OutFile
  pub bytes : ℕ
  pub n_imu : ℕ
  pub n_mag : ℕ

abbrev pub blank_writer : CapWriter
blank_writer = record { file = none; bytes = 0; n_imu = 0; n_mag = 0 }

-- `snprintf(field, 16, "%s", s)` on a zeroed field.
unfoldable pub name_field : Bytes → Bytes
name_field s = take 15 s ++ replicate (16 - min 15 (length s)) 0

unfoldable pub new_header : ℕ → ℕ → Bytes → Bytes → Bytes → ℕ → ℕ → CapHeader
new_header odr_hz odr_mhz imu_driver mag_driver version wall mono = record {
  magic = cap_magic;
  version = cap_fmt_version;
  hdr_len = cap_header_size;
  imu_odr_hz = odr_hz;
  imu_driver = name_field imu_driver;
  mag_driver = name_field mag_driver;
  imud_version = name_field version;
  t0_wall_ns = wall;
  t0_mono_ns = mono;
  imu_odr_mhz = odr_mhz;
  file_flags = cap_hf_crc32;
}

-- The file that `fcreate` gives, if any, and the header that the arguments make; `true` is a
-- return of 0 and `false` one of -1.
unfoldable pub cap_writer_open : Option OutFile → CapHeader → CapWriter × Bool
cap_writer_open none hdr = (blank_writer, false)
cap_writer_open (some f) hdr =
    let (f', ok) = fwrite (hdr_encode hdr) f in
    if ok
    then (record { file = some f'; bytes = cap_header_size; n_imu = 0; n_mag = 0 }, true)
    else (blank_writer, false)

-- The three writes of a record, each made where the ones before it succeeded.
unfoldable pub fwrite_each : List Bytes → OutFile → OutFile × Bool
fwrite_each [] f = (f, true)
fwrite_each (p ∷ ps) f =
    let (f', ok) = fwrite p f in let rest = fwrite_each ps f' in if ok then rest else (f', false)

abbrev pub rec_frame : ℕ → ℕ → Bytes → ℕ → CapFrame
rec_frame kind flags payload mono = record {
  kind = kind;
  flags = u8 (bit_or flags cap_f_crc32);
  len = u16 (length payload + 4);
  mono_ns = mono;
}

-- The trailer: the checksum of the frame's bytes and the payload.
unfoldable pub rec_trailer : Bytes → Bytes → Bytes
rec_trailer fb payload =
    wire_put_u32 (crc32_ieee_final (crc32_ieee_update (crc32_ieee_update crc32_init fb) payload))

unfoldable pub cap_write_rec : CapWriter → ℕ → ℕ → Bytes → ℕ → CapWriter × Bool
cap_write_rec w kind flags payload mono = elim w.file [
  | none ↦ (w, false)
  | some f ↦
      let fb = frame_encode (rec_frame kind flags payload mono) in
      let (f', ok) = fwrite_each (fb ∷ payload ∷ rec_trailer fb payload ∷ []) f in
      if ok
      then (
        record w { file = some f'; bytes = u64 (w.bytes + (12 + u16 (length payload + 4))) },
        true,
      )
      else (record w { file = some f' }, false)
]

abbrev pub imu_rec : ImuSample → CapImuRec
imu_rec s = record {
  accel = s.accel;
  gyro = s.gyro;
  temp_c = s.temp_c;
  chip_ts = s.chip_ts;
  seq = s.seq;
}

abbrev pub mag_rec : MagSample → CapMagRec
mag_rec m = record { field = m.field; wall_ns = m.wall_ns }

abbrev pub mag_flags : MagSample → ℕ
mag_flags m = if m.valid then cap_magf_valid else 0

unfoldable pub cap_writer_imu : CapWriter → ImuSample → ℕ → CapWriter × Bool
cap_writer_imu w s mono =
    let (w', ok) = cap_write_rec w cap_rec_imu 0 (imu_rec_encode (imu_rec s)) mono in
    if ok then (record w' { n_imu = u64 (w'.n_imu + 1) }, true) else (w', false)

unfoldable pub cap_writer_mag : CapWriter → MagSample → ℕ → CapWriter × Bool
cap_writer_mag w m mono =
    let (w', ok) = cap_write_rec w cap_rec_mag (mag_flags m) (mag_rec_encode (mag_rec m)) mono in
    if ok then (record w' { n_mag = u64 (w'.n_mag + 1) }, true) else (w', false)

unfoldable pub cap_writer_mark : CapWriter → ℕ → ℕ → CapWriter × Bool
cap_writer_mark w code mono = cap_write_rec w cap_rec_mark 0 (wire_put_u32 code) mono

unfoldable pub cap_writer_close : CapWriter → CapWriter
cap_writer_close w = record w { file = none }
