-- ===== src/Client/Agree.antt =====
-- The daemon's encoder and the client's decoder and validation, one against the other.
use imud.Prelude.{
  ℕ, ◌^◌, ◌<◌, ◌≡◌, ◌≢◌, refl, ap, sym, ◌∙◌, true, false, [], ◌∷◌, ◌++◌, arith, length, take, drop,
  ==-refl, ne→==, take-append, drop-append, length-append,
}
use imud.Wire.{
  Bytes, wire_put_u32, wire_get_u16, wire_get_u32, wire_get_u64, wire_get_f32, crc32_ieee,
}
use imud.Wire.Bytes.{AreBytes, get-put_u16, get-put_u32}
use imud.Wire.Crc.{crc32_ieee-lt, crc32_ieee-one_byte}
use imud.Packet.{Packet, packet_body, packet_encode, imud_magic, imud_version}
use imud.Packet.Read.{packet_decode}
use imud.Packet.RoundTrip.{Fits, packet_body-AreBytes, packet_decode-packet_encode}
use imud.Client.Decode.{imud__ld16, imud__ld32, imud__ld64, imud__ldf, imud_packet_decode}
use imud.Client.Handle.{packet_ok}

-- The client's copy of the decoder reads every buffer as the daemon's does.
pub imud_packet_decode-eq-packet_decode : (p : Bytes) → imud_packet_decode p ≡ packet_decode p
unfolding imud_packet_decode packet_decode imud__ld16 imud__ld32 imud__ld64 imud__ldf wire_get_u16
    wire_get_u32 wire_get_u64 wire_get_f32
imud_packet_decode-eq-packet_decode p = refl

ld32-put : (v : ℕ) (rest : Bytes) → v < 2 ^ 32 → imud__ld32 (wire_put_u32 v ++ rest) ≡ v
unfolding imud__ld32 wire_get_u32
ld32-put v rest h = get-put_u32 v rest h

encode_size : (pkt : Packet) → length (packet_encode pkt).0 ≡ 288
unfolding packet_encode packet_body
encode_size pkt = refl

body_size : (pkt : Packet) → length (packet_body pkt) ≡ 284
unfolding packet_body
body_size pkt = refl

crc_of_front :
    (front back : Bytes)
    → length front ≡ 284
    → crc32_ieee (take 284 (front ++ back)) ≡ crc32_ieee front
crc_of_front front back l =
    ap (λ n. crc32_ieee (take n (front ++ back))) (sym l) ∙ ap crc32_ieee (take-append front back)

crc_behind :
    (front : Bytes) (crc : ℕ)
    → length front ≡ 284
    → crc < 2 ^ 32
    → imud__ld32 (drop 284 (front ++ wire_put_u32 crc)) ≡ crc
crc_behind front crc l h =
    ap (λ n. imud__ld32 (drop n (front ++ wire_put_u32 crc))) (sym l)
    ∙ ap imud__ld32 (drop-append front (wire_put_u32 crc))
    ∙ ld32-put crc [] h

-- The tests of `packet_ok` on an encoded packet.
encoded_magic :
    (pkt : Packet)
    → Fits pkt
    → pkt.magic ≡ imud_magic
    → imud__ld32 (packet_encode pkt).0 ≡ imud_magic
unfolding packet_encode packet_body imud__ld32 wire_get_u32
encoded_magic pkt f m = get-put_u32 pkt.magic [] f.magic ∙ m

encoded_version :
    (pkt : Packet)
    → Fits pkt
    → pkt.version ≡ imud_version
    → imud__ld16 (drop 4 (packet_encode pkt).0) ≡ imud_version
unfolding packet_encode packet_body imud__ld16 wire_get_u16
encoded_version pkt f m = get-put_u16 pkt.version [] f.version ∙ m

encoded_crc :
    (pkt : Packet)
    → Fits pkt
    → crc32_ieee (take 284 (packet_encode pkt).0) ≡ imud__ld32 (drop 284 (packet_encode pkt).0)
unfolding packet_encode
encoded_crc pkt f =
    let body = packet_body pkt in
    let crc = crc32_ieee body in
    crc_of_front body (wire_put_u32 crc) (body_size pkt)
    ∙ sym (crc_behind body crc (body_size pkt) (crc32_ieee-lt body (packet_body-AreBytes pkt f)))

-- What the daemon encodes is 288 bytes that the library's validation accepts, and the client's
-- decoder gives back every field of it, for a packet of this magic and version whose fields fit
-- their types.
pub daemon_to_client :
    (pkt : Packet)
    → Fits pkt
    → pkt.magic ≡ imud_magic
    → pkt.version ≡ imud_version
    → let wire = (packet_encode pkt).0 in
      (length wire ≡ 288)
      × (packet_ok wire 288 ≡ true)
      × (imud_packet_decode wire ≡ record pkt { crc32 = crc32_ieee (packet_body pkt) })
unfolding packet_ok
daemon_to_client pkt f m v = (
  encode_size pkt,
  rw (encoded_magic pkt f m, encoded_version pkt f v, encoded_crc pkt f) (==-refl _),
  imud_packet_decode-eq-packet_decode (packet_encode pkt).0 ∙ packet_decode-packet_encode pkt f,
)

-- A buffer whose checksum does not fit its first 284 bytes is refused.
refused_by_crc :
    (wire : Bytes)
    → crc32_ieee (take 284 wire) ≢ imud__ld32 (drop 284 wire)
    → packet_ok wire 288 ≡ false
unfolding packet_ok
refused_by_crc wire ne = ground (arith, ne→== _ _ ne)

-- An encoded packet in which one of the bytes 0 to 283 was changed to another byte is refused.
pub one_byte-refused :
    (pkt : Packet) (pre post : Bytes) (x y : ℕ)
    → Fits pkt
    → packet_body pkt ≡ pre ++ x ∷ post
    → AreBytes pre
    → AreBytes post
    → x < 2 ^ 8
    → y < 2 ^ 8
    → x ≢ y
    → packet_ok ((pre ++ y ∷ post) ++ wire_put_u32 (packet_encode pkt).1) 288 ≡ false
unfolding packet_encode
one_byte-refused pkt pre post x y f e u v hx hy ne =
    let body = packet_body pkt in
    let crc = crc32_ieee body in
    let damaged : Bytes = pre ++ y ∷ post in
    let long : length damaged ≡ 284 = omega (
      arith,
      length-append pre (y ∷ post),
      length-append pre (x ∷ post),
      ap (λ b. length b) e,
      body_size pkt,
    ) in
    let crc_word = crc32_ieee-lt body (packet_body-AreBytes pkt f) in
    refused_by_crc (damaged ++ wire_put_u32 crc) (λ same. ne (
      crc32_ieee-one_byte pre post x y u v hx hy (
        ap crc32_ieee (sym e)
        ∙ sym (crc_behind damaged crc long crc_word)
        ∙ sym same
        ∙ crc_of_front damaged (wire_put_u32 crc) long)))
