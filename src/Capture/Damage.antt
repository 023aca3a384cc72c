-- ===== src/Capture/Damage.antt =====
-- src/capture.c: a record that was damaged on the disk.
use imud.Prelude.{
  ℕ, ◌+◌, ◌-◌, ◌^◌, ◌<◌, ◌≤◌, ◌≡◌, ◌≢◌, refl, ap, ap₂, sym, ◌∙◌, Bool, false, [], ◌∷◌, ◌++◌, arith,
  length, take, drop, ◌==◌, if◌then◌else◌, bit_and, ne→==, append_assoc, length-append, take-append,
  drop-append, drop_eq, drop-drop,
}
use imud.Wire.{Bytes, wire_get_u32, crc32_init, crc32_ieee_final, crc32_ieee}
use imud.Wire.Bytes.{AreBytes, AreBytes-append, get-put_u32}
use imud.Wire.Crc.{update-append, crc32_ieee-one_byte}
use imud.Capture.{CapHeader, CapFrame, cap_f_crc32, frame_encode}
use imud.Capture.Writer.{rec_trailer}
use imud.Capture.Reader.{
  InFile, filled, mismatch, buffer, cap_read_payload, err_crc, returns, finish, switch_kind,
  one_record,
}
use imud.Capture.Payload.{read_payload_crc-whole}
use imud.Capture.Checked.{checked, sum_of, crc-lt}
use imud.Capture.Entries.{
  Entry, imu_entry, mag_entry, mark_entry, entry_payload, entry_frame, EntryFits, payload-AreBytes,
  frame-AreBytes, entry_frame-FrameFits, entry_len, entry_size, entry_room, entry_checked,
  read_frame,
}

if_false {ℓ} : {A : Type ℓ} (b : Bool) (x y : A) → b ≡ false → (if b then x else y) ≡ y
if_false b x y h = rw h refl

sum_of-crc32_ieee : (fb p : Bytes) → sum_of fb p ≡ crc32_ieee (fb ++ p)
unfolding crc32_ieee
sum_of-crc32_ieee fb p = ap crc32_ieee_final (sym (update-append crc32_init fb p))

-- One byte's damage shows in the checksum.
sum_of-differs :
    (fb pre post : Bytes) (x y : ℕ)
    → AreBytes (fb ++ pre)
    → AreBytes post
    → x < 2 ^ 8
    → y < 2 ^ 8
    → x ≢ y
    → sum_of fb (pre ++ y ∷ post) ≢ sum_of fb (pre ++ x ∷ post)
sum_of-differs fb pre post x y before behind hx hy ne same =
    let joined : (z : ℕ) → sum_of fb (pre ++ z ∷ post) ≡ crc32_ieee ((fb ++ pre) ++ z ∷ post) = λ z.
      sum_of-crc32_ieee fb (pre ++ z ∷ post)
      ∙ ap crc32_ieee (sym (append_assoc fb pre (z ∷ post))) in
    ne (
      crc32_ieee-one_byte (fb ++ pre) post x y before behind hx hy
        (sym (joined x) ∙ sym same ∙ joined y))

-- Bytes of the payload's length whose checksum is another one are refused.
payload_damaged :
    (hdr : CapHeader) (fb payload other : Bytes) (fr : CapFrame) (dst_sz : ℕ) (more : Bytes)
    (f : InFile)
    → AreBytes fb
    → AreBytes payload
    → (bit_and fr.flags cap_f_crc32 == 0) ≡ false
    → fr.len ≡ length payload + 4
    → length other ≡ length payload
    → dst_sz ≤ length payload
    → sum_of fb other ≢ sum_of fb payload
    → f.rest ≡ other ++ (rec_trailer fb payload ++ more)
    → cap_read_payload hdr fb fr dst_sz f ≡ (mismatch, record f { rest = more })
unfolding rec_trailer
payload_damaged hdr fb payload other fr dst_sz more f fb_bytes bytes flag len size fits ne at =
    let trailer = rec_trailer fb payload in
    let n : fr.len - 4 ≡ length other = omega arith in
    let body : take (fr.len - 4) f.rest ≡ other =
      rw (n, at) (take-append other (trailer ++ more)) in
    let behind : drop (fr.len - 4) f.rest ≡ trailer ++ more =
      rw (n, at) (drop-append other (trailer ++ more)) in
    let room : fr.len ≤ length f.rest =
      rw at (omega (arith, length-append other (trailer ++ more), length-append trailer more)) in
    let gone : drop fr.len f.rest ≡ more =
      drop_eq fr.len (fr.len - 4 + 4) f.rest (omega arith)
      ∙ sym (drop-drop (fr.len - 4) 4 f.rest)
      ∙ ap (drop 4) behind in
    let stored = get-put_u32 (sum_of fb payload) [] (crc-lt fb payload fb_bytes bytes) in
    let differs : (sum_of fb (take (fr.len - 4) f.rest)
          == wire_get_u32 (take 4 (drop (fr.len - 4) f.rest)))
        ≡ false =
      rw (body, behind, stored) (ne→== (sum_of fb other) (sum_of fb payload) ne) in
    checked hdr fb fr dst_sz f flag (omega arith)
    ∙ read_payload_crc-whole dst_sz fr.len fb f (omega arith) room
    ∙ ap₂ (λ g r. (g, record f { rest = r }))
        (if_false _ (filled (buffer dst_sz (take dst_sz (take (fr.len - 4) f.rest)))) mismatch
          differs)
        gone

switch_damaged :
    (e : Entry) (hdr : CapHeader) (fb : Bytes) (f f' : InFile)
    → cap_read_payload hdr fb (entry_frame e) (entry_size e) f ≡ (mismatch, f')
    → switch_kind hdr fb (entry_frame e) f ≡ returns err_crc f'
unfolding switch_kind finish
switch_damaged (imu_entry s mono) hdr fb f f' e = rw e refl
switch_damaged (mag_entry m mono) hdr fb f f' e = rw e refl
switch_damaged (mark_entry code mono) hdr fb f f' e = rw e refl

-- Where one byte of the payload of a record that the writer made, with numbers that fit, was
-- changed on the disk, the reader refuses the record with a checksum error.
pub one_record-damaged :
    (e : Entry) (hdr : CapHeader) (f : InFile) (pre post more : Bytes) (x y : ℕ)
    → EntryFits e
    → entry_payload e ≡ pre ++ x ∷ post
    → AreBytes pre
    → AreBytes post
    → x < 2 ^ 8
    → y < 2 ^ 8
    → x ≢ y
    → f.rest
      ≡ frame_encode (entry_frame e)
        ++ ((pre ++ y ∷ post)
            ++ (rec_trailer (frame_encode (entry_frame e)) (entry_payload e) ++ more))
    → one_record hdr f ≡ returns err_crc (record f { rest = more })
unfolding frame_encode
one_record-damaged e hdr f pre post more x y fits was pre_bytes post_bytes hx hy ne at =
    let fb = frame_encode (entry_frame e) in
    let payload = entry_payload e in
    let other = pre ++ y ∷ post in
    let tail = other ++ (rec_trailer fb payload ++ more) in
    let size : length other ≡ length payload =
      rw was (omega (arith, length-append pre (x ∷ post), length-append pre (y ∷ post))) in
    let behind : drop 12 f.rest ≡ tail = rw at (drop-append fb tail) in
    let bytes = frame-AreBytes (entry_frame e) in
    let differs : sum_of fb other ≢ sum_of fb payload = rw was (
      sum_of-differs fb pre post x y (AreBytes-append fb pre bytes pre_bytes) post_bytes hx hy
        ne) in
    read_frame hdr (entry_frame e) f (entry_frame-FrameFits e fits)
      (rw at (omega (arith, length-append fb tail))) (rw at (take-append fb tail))
    ∙ switch_damaged e hdr fb (record f { rest = drop 12 f.rest }) (record f { rest = more })
        (payload_damaged hdr fb payload other (entry_frame e) (entry_size e) more
          (record f { rest = drop 12 f.rest }) bytes (payload-AreBytes e) (entry_checked e)
          (entry_len e) size (entry_room e) differs behind)
