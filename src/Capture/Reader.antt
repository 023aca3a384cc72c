-- ===== src/Capture/Reader.antt =====
-- src/capture.c, the reader. A `FILE` open for reading is its bytes; a read that comes up short
-- takes what is left, and `fault` says whether that was an error rather than the end.
use imud.Prelude.{
  ℕ, zero, suc, ◌+◌, ◌-◌, Bool, true, false, not, ◌&&◌, ◌||◌, [], ◌++◌, Option, none, some, length,
  take, drop, replicate, min, ltb, leb, ◌==◌, if◌then◌else◌, bit_and,
}
use imud.Prelude.Text.{same_bytes}
use imud.Types.{blank_imu, blank_mag}
use imud.Wire.{Bytes, wire_get_u32, crc32_init, crc32_ieee_update, crc32_ieee_final}
use imud.Capture.{
  CapHeader, CapFrame, CapRecord, cap_magic, cap_fmt_version, cap_header_size, cap_hf_crc32,
  cap_rec_imu, cap_rec_mag, cap_rec_mark, cap_magf_valid, cap_f_crc32, hdr_decode, frame_decode,
  imu_rec_decode, mag_rec_decode,
}

-- `seekable` says whether `fseek` works on it.
pub record InFile : Type 0 where
  pub whole : Bytes
  pub rest : Bytes
  pub seekable : Bool
  pub fault : Bool

-- `fread(p, n, 1, f)`: the bytes where it returned 1.
unfoldable pub fread : ℕ → InFile → Option Bytes × InFile
fread n f =
    if leb n (length f.rest)
    then (some (take n f.rest), record f { rest = drop n f.rest })
    else (none, record f { rest = [] })

-- `fseek(f, n, SEEK_CUR)`; past the end of the file is fine.
unfoldable pub fseek_on : ℕ → InFile → InFile × Bool
fseek_on n f = if f.seekable then (record f { rest = drop n f.rest }, true) else (f, false)

-- What the three payload readers return: 1 with the buffer, 0, -1 and -2.
pub data Got : Type 0 where
  filled : Bytes → Got
  short io_error mismatch : Got

-- `ferror(f) ? -1 : 0`
abbrev pub why : InFile → Got
why f = if f.fault then io_error else short

-- The buffer of `size` zeros once its first bytes are `got`.
abbrev pub buffer : ℕ → Bytes → Bytes
buffer size got = got ++ replicate (size - length got) 0

-- The end of `read_payload`: past what the buffer has no room for.
unfoldable pub skip_excess : ℕ → ℕ → ℕ → Option Bytes → InFile → Got × InFile
skip_excess dst_sz len want none f = (why f, f)
skip_excess dst_sz len want (some got) f =
    let (f', moved) = fseek_on (len - want) f in
    if not (ltb want len)
    then (filled (buffer dst_sz got), f)
    else (if moved then filled (buffer dst_sz got) else why f', f')

unfoldable pub read_payload : ℕ → ℕ → InFile → Got × InFile
read_payload dst_sz len f =
    let want = if ltb len dst_sz then len else dst_sz in
    let (bytes, f') = if want == 0 then (some [], f) else fread want f in
    skip_excess dst_sz len want bytes f'

-- `while (body)`, with the checksum and the front of the buffer so far. Each round takes a byte or
-- more, so a fuel of `body` is enough and its end is never met.
unfoldable pub read_body : ℕ → ℕ → ℕ → ℕ → Bytes → InFile → Option (ℕ × Bytes) × InFile
read_body fuel zero dst_sz crc got f = (some (crc, got), f)
read_body zero (suc b) dst_sz crc got f = (none, f)
read_body (suc fuel) (suc b) dst_sz crc got f =
    let chunk = min (suc b) 128 in
    let (bytes, f') = fread chunk f in
    elim bytes [
      | none ↦ (none, f')
      | some scratch ↦
          read_body fuel (suc b - chunk) dst_sz (crc32_ieee_update crc scratch)
            (got ++ take (min (dst_sz - length got) chunk) scratch) f'
    ]

unfoldable pub read_payload_crc : ℕ → ℕ → Bytes → InFile → Got × InFile
read_payload_crc dst_sz len fb f =
    let body = len - 4 in
    let (r, f') = read_body body body dst_sz (crc32_ieee_update crc32_init fb) [] f in
    elim r [
      | none ↦ (why f', f')
      | some (crc, got) ↦
          let (tb, f'') = fread 4 f' in
          elim tb [
            | none ↦ (why f'', f'')
            | some t ↦ (
              if crc32_ieee_final crc == wire_get_u32 t
                  then filled (buffer dst_sz got)
                  else mismatch,
              f'',
            )
          ]
    ]

unfoldable pub cap_read_payload : CapHeader → Bytes → CapFrame → ℕ → InFile → Got × InFile
cap_read_payload hdr fb fr dst_sz f =
    let crc = not (bit_and fr.flags cap_f_crc32 == 0) in
    let least = dst_sz + (if crc then 4 else 0) in
    if not crc && not (bit_and hdr.file_flags cap_hf_crc32 == 0)
    then (mismatch, f)
    else if ltb fr.len least
    then (short, f)
    else if crc
    then read_payload_crc dst_sz fr.len fb f
    else read_payload dst_sz fr.len f

-- What `cap_reader_next` returns: 1 with the record, 0, `CAP_ERR_IO` and `CAP_ERR_CRC`.
pub data Next : Type 0 where
  got_record : CapRecord → Next
  at_end err_io err_crc : Next

abbrev pub rc_to_err : Got → Next
rc_to_err (filled _) = at_end
rc_to_err short = at_end
rc_to_err io_error = err_io
rc_to_err mismatch = err_crc

-- `*out` after its `memset` and the two fields that every record has.
abbrev pub start_record : CapFrame → CapRecord
start_record fr = record {
  kind = fr.kind;
  mono_ns = fr.mono_ns;
  imu = blank_imu;
  mag = blank_mag;
  mark = 0;
}

unfoldable pub imu_record : CapFrame → Bytes → CapRecord
imu_record fr rb =
    let r = imu_rec_decode rb in
    record (start_record fr) {
      imu = record blank_imu {
        accel = r.accel;
        gyro = r.gyro;
        temp_c = r.temp_c;
        chip_ts = r.chip_ts;
        seq = r.seq;
      };
    }

unfoldable pub mag_record : CapFrame → Bytes → CapRecord
mag_record fr rb =
    let r = mag_rec_decode rb in
    record (start_record fr) {
      mag = record blank_mag {
        field = r.field;
        wall_ns = r.wall_ns;
        valid = not (bit_and fr.flags cap_magf_valid == 0);
        calibrated = false;
      };
    }

unfoldable pub mark_record : CapFrame → Bytes → CapRecord
mark_record fr rb = record (start_record fr) { mark = wire_get_u32 rb }

-- What a round of the loop does: `return`, or go on with the next frame.
pub data Turn : Type 0 where
  returns : Next → InFile → Turn
  goes_on : InFile → Turn

-- The end of a known type's case: the record, or the error of its payload.
unfoldable pub finish : (Bytes → CapRecord) → Got → InFile → Turn
finish make (filled rb) f = returns (got_record (make rb)) f
finish make short f = returns (rc_to_err short) f
finish make io_error f = returns (rc_to_err io_error) f
finish make mismatch f = returns (rc_to_err mismatch) f

-- The end of the `default` case.
unfoldable pub skip : Got → InFile → Turn
skip (filled _) f = goes_on f
skip short f = returns (rc_to_err short) f
skip io_error f = returns (rc_to_err io_error) f
skip mismatch f = returns (rc_to_err mismatch) f

-- `switch (fr.type)`
unfoldable pub switch_kind : CapHeader → Bytes → CapFrame → InFile → Turn
switch_kind hdr fb fr f =
    let (imu_got, imu_f) = cap_read_payload hdr fb fr 36 f in
    let (mag_got, mag_f) = cap_read_payload hdr fb fr 20 f in
    let (mark_got, mark_f) = cap_read_payload hdr fb fr 4 f in
    let (got, f') = cap_read_payload hdr fb fr 0 f in
    if fr.kind == cap_rec_imu
    then finish (imu_record fr) imu_got imu_f
    else if fr.kind == cap_rec_mag
    then finish (mag_record fr) mag_got mag_f
    else if fr.kind == cap_rec_mark
    then finish (mark_record fr) mark_got mark_f
    else skip got f'

-- The body of `for (;;)`.
unfoldable pub one_record : CapHeader → InFile → Turn
one_record hdr f =
    let (bytes, f') = fread 12 f in
    elim bytes [
      | none ↦ returns (if f'.fault then err_io else at_end) f'
      | some fb ↦ switch_kind hdr fb (frame_decode fb) f'
    ]

-- `for (;;)`, by the rounds left: `none` where they run out.
unfoldable pub next_record : ℕ → CapHeader → InFile → Option (Next × InFile)
next_record zero hdr f = none
next_record (suc fuel) hdr f = elim (one_record hdr f) [
  | returns n f' ↦ some (n, f')
  | goes_on f' ↦ next_record fuel hdr f'
]

-- `cap_reader_t`; the file is `none` for NULL.
pub record CapReader : Type 0 where
  pub file : Option InFile
  pub hdr : CapHeader

-- A round that goes on has read a frame, so one more round than there are bytes is enough.
unfoldable pub cap_reader_next : CapReader → Option (Next × CapReader)
cap_reader_next r = elim r.file [
  | none ↦ some (err_io, r)
  | some f ↦ elim (next_record (suc (length f.rest)) r.hdr f) [
    | none ↦ none
    | some (n, f') ↦ some (n, record r { file = some f' })
  ]
]

-- What `cap_reader_open` returns: 0, `CAP_ERR_IO` and `CAP_ERR_FORMAT`.
pub data Opened : Type 0 where
  opened open_io open_format : Opened

abbrev pub closed_reader : CapHeader → CapReader
closed_reader hdr = record { file = none; hdr = hdr }

-- The file that `fopen` gives, if any, and the header that `memset` leaves.
unfoldable pub cap_reader_open : Option InFile → CapHeader → CapReader × Opened
cap_reader_open none blank = (closed_reader blank, open_io)
cap_reader_open (some f) blank =
    let (bytes, f') = fread cap_header_size f in
    elim bytes [
      | none ↦ (closed_reader blank, open_format)
      | some hb ↦
          let hdr = hdr_decode hb in
          if not (same_bytes hdr.magic cap_magic)
            || not (hdr.version == cap_fmt_version)
            || ltb hdr.hdr_len cap_header_size
          then (closed_reader hdr, open_format)
          else if f'.seekable
          then (
            record { file = some (record f' { rest = drop hdr.hdr_len f'.whole }); hdr = hdr },
            opened,
          )
          else (closed_reader hdr, open_io)
    ]

unfoldable pub cap_reader_rewind : CapReader → CapReader × Bool
cap_reader_rewind r = elim r.file [
  | none ↦ (r, false)
  | some f ↦
      if f.seekable
      then (record r { file = some (record f { rest = drop r.hdr.hdr_len f.whole }) }, true)
      else (r, false)
]
