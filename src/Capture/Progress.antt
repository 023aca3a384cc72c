-- ===== src/Capture/Progress.antt =====
-- src/capture.c: the reader comes to an end on any file.
use imud.Prelude.{
  ℕ, zero, suc, ◌+◌, ◌-◌, ◌<◌, ◌≤◌, ◌≡◌, refl, Option-cases, ◌⊎◌, Bool-cases, inl, inr, Option,
  none, some, [], arith, length, drop, take, length-drop, leb, ltb, ◌==◌, if◌then◌else◌, bit_and,
  dec_le, dec_lt,
}
use mathlib.Core.Path.{subst}
use imud.Wire.{Bytes}
use imud.Capture.{
  CapHeader, CapFrame, CapRecord, cap_f_crc32, cap_hf_crc32, cap_rec_imu, cap_rec_mag, cap_rec_mark,
  frame_decode,
}
use imud.Capture.Reader.{
  InFile, fread, fseek_on, Got, filled, short, io_error, mismatch, read_payload, skip_excess,
  read_payload_crc, cap_read_payload, Next, err_io, Turn, returns, goes_on, skip, finish,
  switch_kind, one_record, next_record, CapReader, cap_reader_next, imu_record, mag_record,
  mark_record,
}
use imud.Capture.Payload.{fread-some, fread-none, read_payload_crc-whole, read_payload_crc-cut}

-- A file is no longer than another.
abbrev Shorter : InFile → InFile → Type 0
Shorter f' f = length f'.rest ≤ length f.rest

fread-Shorter : (n : ℕ) (f : InFile) → Shorter (fread n f).1 f
unfolding fread
fread-Shorter n f = elim (Bool-cases (leb n (length f.rest))) [
  | inl t ↦ rw (t, length-drop n f.rest) (omega arith)
  | inr t ↦ rw t (omega arith)
]

crc-Shorter :
    (dst_sz len : ℕ) (fb : Bytes) (f : InFile)
    → 4 ≤ len
    → Shorter (read_payload_crc dst_sz len fb f).1 f
crc-Shorter dst_sz len fb f h = elim (dec_le len (length f.rest)) [
  | yes le ↦
      rw (read_payload_crc-whole dst_sz len fb f h le) (omega (arith, length-drop len f.rest))
  | no gt ↦ rw (read_payload_crc-cut dst_sz len fb f h (omega arith)) (omega arith)
]

fseek_on-Shorter : (n : ℕ) (f : InFile) → Shorter (fseek_on n f).0 f
unfolding fseek_on
fseek_on-Shorter n f = elim (Bool-cases f.seekable) [
  | inl t ↦ rw (t, length-drop n f.rest) (omega arith)
  | inr t ↦ rw t (omega arith)
]

skip_excess-Shorter :
    (dst_sz len want : ℕ) (got : Option Bytes) (f : InFile)
    → Shorter (skip_excess dst_sz len want got f).1 f
unfolding skip_excess
skip_excess-Shorter dst_sz len want none f = omega arith
skip_excess-Shorter dst_sz len want (some got) f = elim (Bool-cases (ltb want len)) [
  | inl t ↦ rw t (fseek_on-Shorter (len - want) f)
  | inr t ↦ rw t (omega arith)
]

plain-Shorter : (dst_sz len : ℕ) (f : InFile) → Shorter (read_payload dst_sz len f).1 f
unfolding read_payload
plain-Shorter dst_sz len f =
    let want = if ltb len dst_sz then len else dst_sz in
    elim (Bool-cases (want == 0)) [
      | inl t ↦ rw t (skip_excess-Shorter dst_sz len want (some []) f)
      | inr t ↦
          let after = skip_excess-Shorter dst_sz len want (fread want f).0 (fread want f).1 in
          rw t (omega (arith, after, fread-Shorter want f))
    ]

cap_read_payload-Shorter :
    (hdr : CapHeader) (fb : Bytes) (fr : CapFrame) (dst_sz : ℕ) (f : InFile)
    → Shorter (cap_read_payload hdr fb fr dst_sz f).1 f
unfolding cap_read_payload
cap_read_payload-Shorter hdr fb fr dst_sz f =
    elim (Bool-cases (bit_and fr.flags cap_f_crc32 == 0)) [
      | inl plain ↦ elim (Bool-cases (bit_and hdr.file_flags cap_hf_crc32 == 0)) [
        | inl t ↦ elim (Bool-cases (ltb fr.len (dst_sz + 0))) [
          | inl few ↦ rw (plain, t, few) (omega arith)
          | inr more ↦ rw (plain, t, more) (plain-Shorter dst_sz fr.len f)
        ]
        | inr t ↦ rw (plain, t) (omega arith)
      ]
      | inr checked ↦ elim (Bool-cases (ltb fr.len (dst_sz + 4))) [
        | inl few ↦ rw (checked, few) (omega arith)
        | inr more ↦ rw (checked, more) (crc-Shorter dst_sz fr.len fb f (ground arith))
      ]
    ]

-- A turn that goes on leaves fewer bytes than there were.
abbrev Onward : ℕ → Turn → Type 0
Onward n (returns _ _) = Unit {0}
Onward n (goes_on f) = length f.rest < n

finish-Onward :
    (n : ℕ) (make : Bytes → CapRecord) (got : Got) (f : InFile) → Onward n (finish make got f)
unfolding finish
finish-Onward n make (filled rb) f = omega arith
finish-Onward n make short f = omega arith
finish-Onward n make io_error f = omega arith
finish-Onward n make mismatch f = omega arith

skip-Onward : (n : ℕ) (got : Got) (f : InFile) → length f.rest < n → Onward n (skip got f)
unfolding skip
skip-Onward n (filled rb) f h = h
skip-Onward n short f h = omega arith
skip-Onward n io_error f h = omega arith
skip-Onward n mismatch f h = omega arith

switch_kind-Onward :
    (n : ℕ) (hdr : CapHeader) (fb : Bytes) (fr : CapFrame) (f : InFile)
    → length f.rest < n
    → Onward n (switch_kind hdr fb fr f)
unfolding switch_kind
switch_kind-Onward n hdr fb fr f h =
    let (imu_got, imu_f) = cap_read_payload hdr fb fr 36 f in
    let (mag_got, mag_f) = cap_read_payload hdr fb fr 20 f in
    let (mark_got, mark_f) = cap_read_payload hdr fb fr 4 f in
    let (got, f') = cap_read_payload hdr fb fr 0 f in
    let fewer : length f'.rest < n = omega (arith, cap_read_payload-Shorter hdr fb fr 0 f) in
    elim (Bool-cases (fr.kind == cap_rec_imu)) [
      | inl t ↦ rw t (finish-Onward n (imu_record fr) imu_got imu_f)
      | inr t ↦ elim (Bool-cases (fr.kind == cap_rec_mag)) [
        | inl t' ↦ rw (t, t') (finish-Onward n (mag_record fr) mag_got mag_f)
        | inr t' ↦ elim (Bool-cases (fr.kind == cap_rec_mark)) [
          | inl t'' ↦ rw (t, t', t'') (finish-Onward n (mark_record fr) mark_got mark_f)
          | inr t'' ↦ rw (t, t', t'') (skip-Onward n got f' fewer)
        ]
      ]
    ]

one_record-Onward : (hdr : CapHeader) (f : InFile) → Onward (length f.rest) (one_record hdr f)
unfolding one_record
one_record-Onward hdr f = elim (dec_lt (length f.rest) 12) [
  | yes few ↦ let e = fread-none 12 f few in rw (e, one_record) (omega arith)
  | no more ↦
      let e = fread-some 12 f (omega arith) in
      rw (e, one_record, e)
        (switch_kind-Onward (length f.rest) hdr (take 12 f.rest) (frame_decode (take 12 f.rest))
          (record f { rest = drop 12 f.rest }) (rw length-drop (omega arith)))
]

Turn-cases :
    (t : Turn) → ((r : Next × InFile) × (t ≡ returns r.0 r.1)) ⊎ ((f : InFile) × (t ≡ goes_on f))
Turn-cases (returns n f) = inl ((n, f), refl)
Turn-cases (goes_on f) = inr (f, refl)

next_record-ends :
    (fuel : ℕ) (hdr : CapHeader) (f : InFile)
    → length f.rest < fuel
    → (r : Next × InFile) × (next_record fuel hdr f ≡ some r)
unfolding next_record
next_record-ends zero hdr f h = absurd (omega arith)
next_record-ends (suc fuel) hdr f h = elim (Turn-cases (one_record hdr f)) [
  | inl (r, e) ↦ (r, rw (e, next_record) refl)
  | inr (f', e) ↦
      let fewer : length f'.rest < length f.rest =
        subst (Onward (length f.rest)) e (one_record-Onward hdr f) in
      let (r, e') = next_record-ends fuel hdr f' (omega arith) in (r, rw (e, next_record) e')
]

-- On any reader, open or closed, and any bytes that are left in the file, `cap_reader_next`
-- returns.
pub cap_reader_next-ends :
    (r : CapReader) → (out : Next × CapReader) × (cap_reader_next r ≡ some out)
unfolding cap_reader_next
cap_reader_next-ends r = elim (Option-cases r.file) [
  | inl closed ↦ ((err_io, r), rw closed refl)
  | inr (f, is_open) ↦
      let ((n, f'), e) = next_record-ends (suc (length f.rest)) r.hdr f (omega arith) in
      ((n, record r { file = some f' }), rw (is_open, cap_reader_next, e) refl)
]
