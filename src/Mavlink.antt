-- ===== src/Mavlink.antt =====
-- src/mavlink_encode.c and include/mavlink_encode.h: the frames of the MAVLink bridge. A float is its
-- bit pattern; `len` is the payload's length.
use imud.Prelude.{
  ℕ, zero, suc, ◌+◌, ◌-◌, ◌*◌, ◌/◌, ◌%◌, ◌^◌, Bool, true, false, List, [], ◌∷◌, ◌++◌, length, ◌==◌,
  if◌then◌else◌, bit_and, bit_xor,
}
use imud.Wire.{Bytes, u8, u16, shr, shl, wire_put_u8, wire_put_u16, wire_put_u32}
pub mod Crc
pub mod Frames
mod Tests

-- MAV_STX_V1, MAV_STX_V2 and MAV_MAX_FRAME
abbrev pub stx_v1 : ℕ
stx_v1 = 0xFE

abbrev pub stx_v2 : ℕ
stx_v2 = 0xFD

abbrev pub max_frame : ℕ
max_frame = 64

-- `tmp`, and the state after it.
unfoldable pub crc_tmp : ℕ → ℕ
crc_tmp t = bit_xor t (u8 (shl t 4))

unfoldable pub crc_accumulate : ℕ → ℕ → ℕ
crc_accumulate byte crc =
    let tmp = crc_tmp (bit_xor byte (u8 (bit_and crc 0xFF))) in
    u16 (bit_xor (bit_xor (bit_xor (shr crc 8) (shl tmp 8)) (shl tmp 3)) (shr tmp 4))

-- The loops that call it on each byte.
unfoldable pub crc_bytes : ℕ → Bytes → ℕ
crc_bytes crc [] = crc
crc_bytes crc (b ∷ bs) = crc_bytes (crc_accumulate b crc) bs

-- `hdr`
unfoldable pub frame_header : ℕ → ℕ → ℕ → ℕ → ℕ → ℕ → Bytes
frame_header ver sysid compid seq msgid len =
    if ver == 1
    then len ∷ seq ∷ sysid ∷ compid ∷ u8 msgid ∷ []
    else len ∷ 0 ∷ 0 ∷ seq ∷ sysid ∷ compid ∷ u8 msgid ∷ u8 (shr msgid 8) ∷ u8 (shr msgid 16) ∷ []

unfoldable pub mav_frame : ℕ → ℕ → ℕ → ℕ → ℕ → Bytes → ℕ → Bytes
mav_frame ver sysid compid seq msgid payload crc_extra =
    let hdr = frame_header ver sysid compid seq msgid (length payload) in
    let crc = crc_accumulate crc_extra (crc_bytes 0xFFFF (hdr ++ payload)) in
    ((if ver == 1 then stx_v1 else stx_v2) ∷ (hdr ++ payload)) ++ (u8 crc ∷ shr crc 8 ∷ [])

unfoldable pub mav_pack_heartbeat : ℕ → ℕ → ℕ → ℕ → Bytes
mav_pack_heartbeat ver sysid compid seq =
    let pl = wire_put_u32 0 ++ (0 ∷ 8 ∷ 0 ∷ 4 ∷ 3 ∷ []) in mav_frame ver sysid compid seq 0 pl 50

unfoldable pub mav_pack_sys_status : ℕ → ℕ → ℕ → ℕ → ℕ → ℕ → ℕ → Bytes
mav_pack_sys_status ver sysid compid seq present enabled health =
    let masks = wire_put_u32 present ++ (wire_put_u32 enabled ++ wire_put_u32 health) in
    let battery = wire_put_u16 0 ++ (wire_put_u16 0xFFFF ++ wire_put_u16 0xFFFF) in
    let errors =
      wire_put_u16 0
      ++ (wire_put_u16 0
          ++ (wire_put_u16 0 ++ (wire_put_u16 0 ++ (wire_put_u16 0 ++ wire_put_u16 0)))) in
    mav_frame ver sysid compid seq 1 (masks ++ (battery ++ (errors ++ (0xFF ∷ [])))) 124

unfoldable pub mav_pack_attitude : ℕ → ℕ → ℕ → ℕ → ℕ → ℕ → ℕ → ℕ → ℕ → ℕ → ℕ → Bytes
mav_pack_attitude ver sysid compid seq time_boot_ms roll pitch yaw rollspeed pitchspeed yawspeed =
    let angles = wire_put_u32 roll ++ (wire_put_u32 pitch ++ wire_put_u32 yaw) in
    let rates = wire_put_u32 rollspeed ++ (wire_put_u32 pitchspeed ++ wire_put_u32 yawspeed) in
    mav_frame ver sysid compid seq 30 (wire_put_u32 time_boot_ms ++ (angles ++ rates)) 39

unfoldable pub mav_pack_attitude_quaternion : ℕ → ℕ → ℕ → ℕ → ℕ → ℕ → ℕ → ℕ → ℕ → ℕ → ℕ → ℕ → Bytes
mav_pack_attitude_quaternion ver sysid compid seq time_boot_ms q1 q2 q3 q4 rollspeed pitchspeed
      yawspeed =
    let q = wire_put_u32 q1 ++ (wire_put_u32 q2 ++ (wire_put_u32 q3 ++ wire_put_u32 q4)) in
    let rates = wire_put_u32 rollspeed ++ (wire_put_u32 pitchspeed ++ wire_put_u32 yawspeed) in
    mav_frame ver sysid compid seq 31 (wire_put_u32 time_boot_ms ++ (q ++ rates)) 246
