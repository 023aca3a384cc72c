-- ===== src/Capture/Entries.antt =====
-- src/capture.c: the calls of the writer, the bytes of each, and how the reader takes them.
use imud.Prelude.{
  ℕ, ◌+◌, ◌^◌, ◌<◌, ◌≤◌, ◌≡◌, refl, ap, Bool, true, false, Bool-cases, inl, inr, not, [], ◌++◌,
  arith, length, take, drop, ◌==◌, if◌then◌else◌, bit_and, bit_or,
}
use imud.Types.{ImuSample, MagSample, blank_imu, blank_mag, blank_vec}
use imud.Wire.{Bytes, u8, wire_put_u32}
use imud.Wire.Bytes.{AreBytes, get-put_u32}
use imud.Capture.{
  CapHeader, CapFrame, CapRecord, cap_rec_imu, cap_rec_mag, cap_rec_mark, cap_f_crc32,
  cap_magf_valid, frame_encode, imu_rec_encode, mag_rec_encode,
}
use imud.Capture.Writer.{rec_frame, rec_trailer, imu_rec, mag_rec, mag_flags}
use imud.Capture.Reader.{
  InFile, filled, why, buffer, cap_read_payload, Next, got_record, at_end, err_io, imu_record,
  mag_record, mark_record, finish, returns, switch_kind, one_record,
}
use imud.Capture.Codec.{
  FrameFits, frame_decode-frame_encode, ImuFits, MagFits, imu_rec_decode-imu_rec_encode,
  mag_rec_decode-mag_rec_encode,
}
use imud.Capture.Payload.{fread-some}

-- A call of the writer.
pub data Entry : Type 0 where
  imu_entry : ImuSample → ℕ → Entry
  mag_entry : MagSample → ℕ → Entry
  mark_entry : ℕ → ℕ → Entry

abbrev pub entry_payload : Entry → Bytes
entry_payload (imu_entry s mono) = imu_rec_encode (imu_rec s)
entry_payload (mag_entry m mono) = mag_rec_encode (mag_rec m)
entry_payload (mark_entry code mono) = wire_put_u32 code

abbrev pub entry_frame : Entry → CapFrame
entry_frame (imu_entry s mono) = rec_frame cap_rec_imu 0 (imu_rec_encode (imu_rec s)) mono
entry_frame (mag_entry m mono) =
    rec_frame cap_rec_mag (mag_flags m) (mag_rec_encode (mag_rec m)) mono
entry_frame (mark_entry code mono) = rec_frame cap_rec_mark 0 (wire_put_u32 code) mono

-- The bytes of its record: the frame, the payload, the trailer.
abbrev pub entry_bytes : Entry → Bytes
entry_bytes e =
    frame_encode (entry_frame e)
    ++ (entry_payload e ++ rec_trailer (frame_encode (entry_frame e)) (entry_payload e))

-- What a replay is to see of it: the sample without what only the live daemon knows.
abbrev pub entry_record : Entry → CapRecord
entry_record (imu_entry s mono) = record {
  kind = cap_rec_imu;
  mono_ns = mono;
  imu = record s { accel_raw = blank_vec; read_done_ns = 0; host_done_ns = 0 };
  mag = blank_mag;
  mark = 0;
}
entry_record (mag_entry m mono) = record {
  kind = cap_rec_mag;
  mono_ns = mono;
  imu = blank_imu;
  mag = record m { field_raw = blank_vec; calibrated = false };
  mark = 0;
}
entry_record (mark_entry code mono) = record {
  kind = cap_rec_mark;
  mono_ns = mono;
  imu = blank_imu;
  mag = blank_mag;
  mark = code;
}

-- Every number fits its C type.
abbrev pub EntryFits : Entry → Type 0
EntryFits (imu_entry s mono) = ImuFits (imu_rec s) × (mono < 2 ^ 64)
EntryFits (mag_entry m mono) = MagFits (mag_rec m) × (mono < 2 ^ 64)
EntryFits (mark_entry code mono) = (code < 2 ^ 32) × (mono < 2 ^ 64)

pub payload-AreBytes : (e : Entry) → AreBytes (entry_payload e)
unfolding imu_rec_encode mag_rec_encode
payload-AreBytes (imu_entry s mono) = omega arith
payload-AreBytes (mag_entry m mono) = omega arith
payload-AreBytes (mark_entry code mono) = omega arith

pub frame-AreBytes : (fr : CapFrame) → AreBytes (frame_encode fr)
unfolding frame_encode
frame-AreBytes fr = omega arith

pub frame_size : (fr : CapFrame) → length (frame_encode fr) ≡ 12
unfolding frame_encode
frame_size fr = refl

pub entry_frame-FrameFits : (e : Entry) → EntryFits e → FrameFits (entry_frame e)
unfolding imu_rec_encode mag_rec_encode
entry_frame-FrameFits (imu_entry s mono) h = record {
  kind = omega arith;
  flags = omega arith;
  len = omega arith;
  mono_ns = h.1;
}
entry_frame-FrameFits (mag_entry m mono) h = record {
  kind = omega arith;
  flags = omega arith;
  len = omega arith;
  mono_ns = h.1;
}
entry_frame-FrameFits (mark_entry code mono) h = record {
  kind = omega arith;
  flags = omega arith;
  len = omega arith;
  mono_ns = h.1;
}

pub entry_len : (e : Entry) → (entry_frame e).len ≡ length (entry_payload e) + 4
unfolding imu_rec_encode mag_rec_encode
entry_len (imu_entry s mono) = refl
entry_len (mag_entry m mono) = refl
entry_len (mark_entry code mono) = refl

-- The buffer that the reader keeps for the payload.
abbrev pub entry_size : Entry → ℕ
entry_size (imu_entry s mono) = 36
entry_size (mag_entry m mono) = 20
entry_size (mark_entry code mono) = 4

pub entry_room : (e : Entry) → entry_size e ≤ length (entry_payload e)
unfolding imu_rec_encode mag_rec_encode
entry_room (imu_entry s mono) = omega arith
entry_room (mag_entry m mono) = omega arith
entry_room (mark_entry code mono) = omega arith

valid_bit :
    (valid : Bool)
    → not (
        bit_and (u8 (bit_or (if valid then cap_magf_valid else 0) cap_f_crc32)) cap_magf_valid == 0)
      ≡ valid
valid_bit true = refl
valid_bit false = refl

mag_checked :
    (valid : Bool)
    → (bit_and (u8 (bit_or (if valid then cap_magf_valid else 0) cap_f_crc32)) cap_f_crc32 == 0)
      ≡ false
mag_checked true = refl
mag_checked false = refl

pub entry_checked : (e : Entry) → (bit_and (entry_frame e).flags cap_f_crc32 == 0) ≡ false
entry_checked (imu_entry s mono) = refl
entry_checked (mag_entry m mono) = mag_checked m.valid
entry_checked (mark_entry code mono) = refl

-- A frame that is there goes to the switch.
pub read_frame :
    (hdr : CapHeader) (fr : CapFrame) (f : InFile)
    → FrameFits fr
    → 12 ≤ length f.rest
    → take 12 f.rest ≡ frame_encode fr
    → one_record hdr f ≡ switch_kind hdr (frame_encode fr) fr (record f { rest = drop 12 f.rest })
unfolding one_record
read_frame hdr fr f fits l at =
    let e = fread-some 12 f l in rw (e, one_record, e, at, frame_decode-frame_encode fr fits) refl

-- The buffer of a payload is the payload, and its decoding the record.
made_imu :
    (s : ImuSample) (mono : ℕ)
    → EntryFits (imu_entry s mono)
    → imu_record (entry_frame (imu_entry s mono)) (imu_rec_encode (imu_rec s))
      ≡ entry_record (imu_entry s mono)
unfolding imu_record
made_imu s mono fits = rw (imu_rec_decode-imu_rec_encode (imu_rec s) fits.0) refl

made_mag :
    (m : MagSample) (mono : ℕ)
    → EntryFits (mag_entry m mono)
    → mag_record (entry_frame (mag_entry m mono)) (mag_rec_encode (mag_rec m))
      ≡ entry_record (mag_entry m mono)
unfolding mag_record
made_mag m mono fits = rw (mag_rec_decode-mag_rec_encode (mag_rec m) fits.0, valid_bit m.valid) refl

made_mark :
    (code mono : ℕ)
    → EntryFits (mark_entry code mono)
    → mark_record (entry_frame (mark_entry code mono)) (wire_put_u32 code)
      ≡ entry_record (mark_entry code mono)
unfolding mark_record
made_mark code mono fits = rw (get-put_u32 code [] fits.0) refl

-- The switch, at a payload that is there and at one that is not.
pub switch_whole :
    (e : Entry) (hdr : CapHeader) (fb : Bytes) (f f' : InFile)
    → EntryFits e
    → cap_read_payload hdr fb (entry_frame e) (entry_size e) f
      ≡ (filled (buffer (entry_size e) (take (entry_size e) (entry_payload e))), f')
    → switch_kind hdr fb (entry_frame e) f ≡ returns (got_record (entry_record e)) f'
unfolding switch_kind finish imu_rec_encode mag_rec_encode
switch_whole (imu_entry s mono) hdr fb f f' fits e =
    rw e (ap (λ r. returns (got_record r) f') (made_imu s mono fits))
switch_whole (mag_entry m mono) hdr fb f f' fits e =
    rw e (ap (λ r. returns (got_record r) f') (made_mag m mono fits))
switch_whole (mark_entry code mono) hdr fb f f' fits e =
    rw e (ap (λ r. returns (got_record r) f') (made_mark code mono fits))

-- What `ferror` makes of a file that ends early.
abbrev pub ended : InFile → Next
ended f = if f.fault then err_io else at_end

finish-why :
    (make : Bytes → CapRecord) (f f' : InFile) → finish make (why f) f' ≡ returns (ended f) f'
unfolding finish
finish-why make f f' = elim (Bool-cases f.fault) [ inl t ↦ rw t refl | inr t ↦ rw t refl ]

pub switch_cut :
    (e : Entry) (hdr : CapHeader) (fb : Bytes) (f f' : InFile)
    → cap_read_payload hdr fb (entry_frame e) (entry_size e) f ≡ (why f, f')
    → switch_kind hdr fb (entry_frame e) f ≡ returns (ended f) f'
unfolding switch_kind
switch_cut (imu_entry s mono) hdr fb f f' e = rw e (finish-why _ f f')
switch_cut (mag_entry m mono) hdr fb f f' e = rw e (finish-why _ f f')
switch_cut (mark_entry code mono) hdr fb f f' e = rw e (finish-why _ f f')
