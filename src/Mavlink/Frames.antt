-- ===== src/Mavlink/Frames.antt =====
-- src/mavlink_encode.c: what a receiver reads of a frame.
use imud.Prelude.{
  ℕ, ◌+◌, ◌*◌, ◌^◌, ◌<◌, ◌≡◌, ◌⊎◌, refl, [], ◌∷◌, ◌++◌, Option, none, some, length, take, drop,
  arith, ◌==◌, if◌then◌else◌, ap, sym, ◌∙◌, inl, inr, take-append, drop-append, append_assoc,
  ==-refl,
}
use imud.Wire.{Bytes, u8, shr}
use imud.Wire.Bytes.{AreBytes, AreBytes-append}
use imud.Mavlink.{crc_accumulate, crc_bytes, frame_header, mav_frame}
use imud.Mavlink.Crc.{mcrf4xx, crc_bytes-mcrf4xx}

pub record Message : Type 0 where
  pub sysid : ℕ
  pub compid : ℕ
  pub seq : ℕ
  pub msgid : ℕ
  pub payload : Bytes

-- The two bytes of a frame's checksum, and what follows the frame.
unfoldable pub close_frame : Message → ℕ → Bytes → Option (Message × Bytes)
close_frame m crc (lo ∷ hi ∷ rest) = if lo + 256 * hi == crc then some (m, rest) else none
close_frame m crc _ = none

-- A receiver as the protocol describes it, version 1: the header, as many bytes as it says, and the
-- checksum of both with the message's extra byte.
unfoldable pub receive_v1 : (ℕ → ℕ) → Bytes → Option (Message × Bytes)
receive_v1 extra (len ∷ seq ∷ sysid ∷ compid ∷ id ∷ body) =
    let covered = (len ∷ seq ∷ sysid ∷ compid ∷ id ∷ []) ++ (take len body ++ (extra id ∷ [])) in
    close_frame
      (record { sysid = sysid; compid = compid; seq = seq; msgid = id; payload = take len body })
      (mcrf4xx 0xFFFF covered) (drop len body)
receive_v1 extra _ = none

-- Version 2, without the flags of signing.
unfoldable pub receive_v2 : (ℕ → ℕ) → Bytes → Option (Message × Bytes)
receive_v2 extra (len ∷ inc ∷ cmp ∷ seq ∷ sysid ∷ compid ∷ id0 ∷ id1 ∷ id2 ∷ body) =
    let id = id0 + 256 * id1 + 65536 * id2 in
    let hdr = len ∷ inc ∷ cmp ∷ seq ∷ sysid ∷ compid ∷ id0 ∷ id1 ∷ id2 ∷ [] in
    close_frame
      (record { sysid = sysid; compid = compid; seq = seq; msgid = id; payload = take len body })
      (mcrf4xx 0xFFFF (hdr ++ (take len body ++ (extra id ∷ [])))) (drop len body)
receive_v2 extra _ = none

unfoldable pub receive : (ℕ → ℕ) → Bytes → Option (Message × Bytes)
receive extra [] = none
receive extra (stx ∷ bs) =
    if stx == 0xFE then receive_v1 extra bs else if stx == 0xFD then receive_v2 extra bs else none

crc_bytes-append :
    (crc : ℕ) (p : Bytes) (b : ℕ)
    → crc_bytes crc (p ++ (b ∷ [])) ≡ crc_accumulate b (crc_bytes crc p)
unfolding crc_bytes
crc_bytes-append crc [] b = refl
crc_bytes-append crc (c ∷ p) b = crc_bytes-append (crc_accumulate c crc) p b

-- The checksum that the source sends is the receiver's.
frame_crc :
    (hdr payload : Bytes) (extra : ℕ)
    → AreBytes hdr
    → AreBytes payload
    → extra < 2 ^ 8
    → crc_accumulate extra (crc_bytes 0xFFFF (hdr ++ payload))
      ≡ mcrf4xx 0xFFFF (hdr ++ (payload ++ (extra ∷ [])))
frame_crc hdr payload extra hh hp he =
    sym (crc_bytes-append 0xFFFF (hdr ++ payload) extra)
    ∙ ap (crc_bytes 0xFFFF) (append_assoc hdr payload (extra ∷ []))
    ∙ crc_bytes-mcrf4xx 0xFFFF (hdr ++ (payload ++ (extra ∷ []))) (omega arith) (
        AreBytes-append hdr (payload ++ (extra ∷ [])) hh
          (AreBytes-append payload (extra ∷ []) hp (he, tt)))

close_lem :
    (m : Message) (crc : ℕ) (rest : Bytes)
    → close_frame m crc (u8 crc ∷ shr crc 8 ∷ rest) ≡ some (m, rest)
unfolding close_frame
close_lem m crc rest =
    let whole : u8 crc + 256 * shr crc 8 ≡ crc = omega arith in rw (whole, ==-refl crc) refl

-- A body is a payload, the checksum and what follows the frame.
close_body :
    (m : Bytes → Message) (hdr payload : Bytes) (e : ℕ) (rest : Bytes)
    → AreBytes hdr
    → AreBytes payload
    → e < 2 ^ 8
    → let crc = crc_accumulate e (crc_bytes 0xFFFF (hdr ++ payload)) in
      let body = (payload ++ (u8 crc ∷ shr crc 8 ∷ [])) ++ rest in
      close_frame
        (m (take (length payload) body))
        (mcrf4xx 0xFFFF (hdr ++ (take (length payload) body ++ (e ∷ []))))
        (drop (length payload) body)
      ≡ some (m payload, rest)
close_body m hdr payload e rest hh hp he =
    let crc = crc_accumulate e (crc_bytes 0xFFFF (hdr ++ payload)) in
    let sum = u8 crc ∷ shr crc 8 ∷ [] in
    let grouped = append_assoc payload sum rest in
    let cut_take : take (length payload) ((payload ++ sum) ++ rest) ≡ payload =
      ap (take (length payload)) grouped ∙ take-append payload (sum ++ rest) in
    let cut_drop : drop (length payload) ((payload ++ sum) ++ rest) ≡ sum ++ rest =
      ap (drop (length payload)) grouped ∙ drop-append payload (sum ++ rest) in
    rw (cut_take, cut_drop, sym (frame_crc hdr payload e hh hp he)) (close_lem (m payload) crc rest)

module _ (extra : ℕ → ℕ) (sysid compid seq msgid : ℕ) (payload rest : Bytes) (hs : sysid < 2 ^ 8)
    (hc : compid < 2 ^ 8) (hq : seq < 2 ^ 8) (hp : AreBytes payload)
    (short : length payload < 2 ^ 8) (he : extra msgid < 2 ^ 8) where
  abbrev pub message : Message
  message = record { sysid = sysid; compid = compid; seq = seq; msgid = msgid; payload = payload }

  receive-v1 :
      msgid < 2 ^ 8
      → receive extra (mav_frame 1 sysid compid seq msgid payload (extra msgid) ++ rest)
        ≡ some (message, rest)
  unfolding receive receive_v1 mav_frame frame_header
  receive-v1 hm =
      let id : u8 msgid ≡ msgid = omega (arith, hm) in
      rw id (
        close_body
          (λ p. record { sysid = sysid; compid = compid; seq = seq; msgid = msgid; payload = p })
          (length payload ∷ seq ∷ sysid ∷ compid ∷ msgid ∷ []) payload (extra msgid) rest
          (short, (hq, (hs, (hc, (hm, tt))))) hp he)

  receive-v2 :
      msgid < 2 ^ 24
      → receive extra (mav_frame 2 sysid compid seq msgid payload (extra msgid) ++ rest)
        ≡ some (message, rest)
  unfolding receive receive_v2 mav_frame frame_header
  receive-v2 hm =
      let id : u8 msgid + 256 * u8 (shr msgid 8) + 65536 * u8 (shr msgid 16) ≡ msgid =
        omega (arith, hm) in
      rw id (
        close_body
          (λ p. record { sysid = sysid; compid = compid; seq = seq; msgid = msgid; payload = p })
          (length payload
            ∷ 0
            ∷ 0
            ∷ seq
            ∷ sysid
            ∷ compid
            ∷ u8 msgid
            ∷ u8 (shr msgid 8)
            ∷ u8 (shr msgid 16)
            ∷ [])
          payload (extra msgid) rest
          (
            short,
            (
              omega arith,
              (omega arith, (hq, (hs, (hc, (omega arith, (omega arith, (omega arith, tt))))))),
            ),
          )
          hp he)

  -- A frame of either version, of a payload of fewer than 256 bytes, with header fields of a byte each and
  -- a message number that the version has room for, followed by any bytes, is read by a receiver
  -- that checks the checksum bit by bit as that message, and the bytes after it are left.
  pub receive-mav_frame :
      (ver : ℕ)
      → ((ver ≡ 1) × (msgid < 2 ^ 8)) ⊎ ((ver ≡ 2) × (msgid < 2 ^ 24))
      → receive extra (mav_frame ver sysid compid seq msgid payload (extra msgid) ++ rest)
        ≡ some (message, rest)
  receive-mav_frame ver (inl (e, hm)) = rw e (receive-v1 hm)
  receive-mav_frame ver (inr (e, hm)) = rw e (receive-v2 hm)
