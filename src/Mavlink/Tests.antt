-- ===== src/Mavlink/Tests.antt =====
-- Frames on concrete values.
use imud.Prelude.{◌≡◌, refl, [], ◌∷◌, ◌++◌, some, arith, inr}
use imud.Wire.{Bytes}
use imud.Mavlink.{
  crc_tmp, crc_accumulate, crc_bytes, frame_header, mav_frame, mav_pack_heartbeat,
  mav_pack_attitude,
}
use imud.Mavlink.Crc.{mcrf4xx, crc_bytes-mcrf4xx}
use imud.Mavlink.Frames.{receive, receive-mav_frame}

-- The frame of test/test_mavlink.c, v2 HEARTBEAT.
golden_heartbeat :
    mav_pack_heartbeat 2 1 1 0
    ≡ 0xfd ∷ 0x09 ∷ 0x00 ∷ 0x00 ∷ 0x00 ∷ 0x01 ∷ 0x01 ∷ 0x00 ∷ 0x00 ∷ 0x00 ∷ 0x00 ∷ 0x00 ∷ 0x00
      ∷ 0x00 ∷ 0x00 ∷ 0x08 ∷ 0x00 ∷ 0x04 ∷ 0x03 ∷ 0xf0 ∷ 0x98 ∷ []
unfolding mav_pack_heartbeat mav_frame frame_header crc_bytes crc_accumulate crc_tmp
golden_heartbeat = refl

-- And v1 ATTITUDE.
golden_attitude :
    mav_pack_attitude 1 1 1 1 1234 0x3dcccccd 0xbd4ccccd 0x3f9d70a4 0x3c23d70a 0x3ca3d70a 0x3cf5c28f
    ≡ 0xfe ∷ 0x1c ∷ 0x01 ∷ 0x01 ∷ 0x01 ∷ 0x1e ∷ 0xd2 ∷ 0x04 ∷ 0x00 ∷ 0x00 ∷ 0xcd ∷ 0xcc ∷ 0xcc
      ∷ 0x3d ∷ 0xcd ∷ 0xcc ∷ 0x4c ∷ 0xbd ∷ 0xa4 ∷ 0x70 ∷ 0x9d ∷ 0x3f ∷ 0x0a ∷ 0xd7 ∷ 0x23 ∷ 0x3c
      ∷ 0x0a ∷ 0xd7 ∷ 0xa3 ∷ 0x3c ∷ 0x8f ∷ 0xc2 ∷ 0xf5 ∷ 0x3c ∷ 0x3d ∷ 0xed ∷ []
unfolding mav_pack_attitude mav_frame frame_header crc_bytes crc_accumulate crc_tmp
golden_attitude = refl

abbrev beat : Bytes
beat = 0 ∷ 0 ∷ 0 ∷ 0 ∷ 0 ∷ 8 ∷ 0 ∷ 4 ∷ 3 ∷ []

crc_bytes-mcrf4xx_example : crc_bytes 0xFFFF beat ≡ mcrf4xx 0xFFFF beat
crc_bytes-mcrf4xx_example = crc_bytes-mcrf4xx 0xFFFF beat (omega arith) (
  omega arith,
  (
    omega arith,
    (
      omega arith,
      (omega arith, (omega arith, (omega arith, (omega arith, (omega arith, (omega arith, tt)))))),
    ),
  ),
)

receive-mav_frame_example :
    receive (λ _. 50) (mav_frame 2 1 1 0 0 beat 50 ++ (0xFD ∷ []))
    ≡ some (record { sysid = 1; compid = 1; seq = 0; msgid = 0; payload = beat }, 0xFD ∷ [])
receive-mav_frame_example =
    receive-mav_frame (λ _. 50) 1 1 0 0 beat (0xFD ∷ []) (omega arith) (omega arith) (omega arith)
      (
        omega arith,
        (
          omega arith,
          (
            omega arith,
            (
              omega arith,
              (omega arith, (omega arith, (omega arith, (omega arith, (omega arith, tt))))),
            ),
          ),
        ),
      )
      (omega arith) (omega arith) 2 (inr (refl, omega arith))
