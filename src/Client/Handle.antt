-- ===== src/Client/Handle.antt =====
-- lib/libimud.c: the handle, the validation of a packet, and the read loop with its reassembly of
-- frames from a byte stream. The socket layer is outside: a script of events says what each call
-- of `poll` and of `read` or `recv` finds.
use imud.Prelude.{
  ℕ, suc, ◌+◌, ◌-◌, Bool, true, false, not, List, [], ◌∷◌, ◌++◌, Option, length, take, drop, min,
  ltb, ◌==◌, if◌then◌else◌,
}
use imud.Wire.{Bytes, crc32_ieee}
use imud.Packet.{Packet, imud_magic, imud_version}
use imud.Client.Decode.{imud__ld16, imud__ld32, imud_packet_decode}
use imud.Client.Data.{FloatOps, ImudData, fill_data}

abbrev pub imud_packet_size : ℕ
imud_packet_size = 288

unfoldable pub packet_ok : Bytes → ℕ → Bool
packet_ok buf len =
    if not (len == imud_packet_size)
    then false
    else if not (imud__ld32 buf == imud_magic)
    then false
    else if not (imud__ld16 (drop 4 buf) == imud_version)
    then false
    else crc32_ieee (take 284 buf) == imud__ld32 (drop 284 buf)

-- `enum imud_kind`
pub data Kind : Type 0 where
  stream udp tcp : Kind

-- `struct imud`. `fd` is `none` for -1. `rx` is the first `rx_got` bytes of the array: the others
-- are never read. The endpoint fields are kept for `imud_reconnect`.
pub record Imud : Type 0 where
  pub kind : Kind
  pub fd : Option ℕ
  pub path : Bytes
  pub port : ℕ
  pub group : Bytes
  pub rx : Bytes
  pub wire : Packet
  pub view : ImudData
  pub wire_version : ℕ
  pub have : Bool

-- What one round of the loop meets. `readable n` lets `read` find `n + 1` bytes, or the end of the
-- stream where no byte is pending.
pub data Event : Type 0 where
  timeout interrupted poll_failed read_again read_failed : Event
  readable : ℕ → Event

-- The results 0, 1 and -1; `waiting` is a call that has not returned when the script ends.
pub data Outcome : Type 0 where
  packet timed_out failed waiting : Outcome

-- A call's effect: the handle, what it returned, the events left, and the bytes or datagrams that
-- are still in the socket.
pub record After (P : Type 0) : Type 0 where
  pub handle : Imud
  pub outcome : Outcome
  pub events : List Event
  pub pending : P

abbrev pub after : {P : Type 0} → Imud → Outcome → List Event → P → After P
after h o es p = record { handle = h; outcome = o; events = es; pending = p }

-- The end of the loop: the packet becomes the handle's latest.
unfoldable pub deliver : FloatOps → Imud → Bytes → Imud
deliver ops h buf =
    let p = imud_packet_decode buf in
    record h { wire = p; view = fill_data ops p; wire_version = p.version; have = true }

-- The loop on a stream socket.
unfoldable pub read_stream : FloatOps → Imud → List Event → Bytes → After Bytes
read_stream ops h [] pending = after h waiting [] pending
read_stream ops h (timeout ∷ es) pending = after h timed_out es pending
read_stream ops h (interrupted ∷ es) pending = after h timed_out es pending
read_stream ops h (poll_failed ∷ es) pending = after h failed es pending
read_stream ops h (read_failed ∷ es) pending = after h failed es pending
read_stream ops h (read_again ∷ es) pending = read_stream ops h es pending
read_stream ops h (readable n ∷ es) [] = after h failed es []
read_stream ops h (readable n ∷ es) (b ∷ bs) =
    let size = min (suc n) (imud_packet_size - length h.rx) in
    let rx' = h.rx ++ take size (b ∷ bs) in
    let pending' = drop size (b ∷ bs) in
    let partial = read_stream ops (record h { rx = rx' }) es pending' in
    let corrupt = read_stream ops (record h { rx = [] }) es pending' in
    if ltb (length rx') imud_packet_size
    then partial
    else if not (packet_ok rx' imud_packet_size)
    then corrupt
    else after (deliver ops (record h { rx = [] }) rx') packet es pending'

-- The loop on a datagram socket: `recv` takes one whole datagram, of which 289 bytes are kept.
unfoldable pub read_udp : FloatOps → Imud → List Event → List Bytes → After (List Bytes)
read_udp ops h [] pending = after h waiting [] pending
read_udp ops h (timeout ∷ es) pending = after h timed_out es pending
read_udp ops h (interrupted ∷ es) pending = after h timed_out es pending
read_udp ops h (poll_failed ∷ es) pending = after h failed es pending
read_udp ops h (read_failed ∷ es) pending = after h failed es pending
read_udp ops h (read_again ∷ es) pending = read_udp ops h es pending
read_udp ops h (readable n ∷ es) [] = read_udp ops h es []
read_udp ops h (readable n ∷ es) (d ∷ ds) =
    let buf = take (imud_packet_size + 1) d in
    let discarded = read_udp ops h es ds in
    if not (packet_ok buf (length buf)) then discarded else after (deliver ops h buf) packet es ds
