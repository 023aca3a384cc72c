-- ===== src/Capture/Checked.antt =====
-- src/capture.c: what the writer's trailer is to `cap_read_payload`.
use imud.Prelude.{
  ℕ, ◌+◌, ◌-◌, ◌^◌, ◌<◌, ◌≤◌, ◌≡◌, refl, ap, ap₂, sym, ◌∙◌, Bool, true, false, ltb, drop_eq,
  drop-drop, [], ◌++◌, arith, length, take, drop, ◌==◌, if◌then◌else◌, bit_and, bit_xor-lt, ==-refl,
  length-append, take-append, drop-append,
}
use imud.Wire.{Bytes, wire_get_u32, crc32_init, crc32_ieee_update, crc32_ieee_final}
use imud.Wire.Bytes.{AreBytes, get-put_u32}
use imud.Wire.Crc.{update-lt}
use imud.Capture.{CapHeader, CapFrame, cap_f_crc32}
use imud.Capture.Writer.{rec_trailer}
use imud.Capture.Reader.{InFile, filled, mismatch, why, buffer, read_payload_crc, cap_read_payload}
use imud.Capture.Payload.{read_payload_crc-whole, read_payload_crc-cut}

-- A frame with the checksum bit goes to the checked reader.
pub checked :
    (hdr : CapHeader) (fb : Bytes) (fr : CapFrame) (dst_sz : ℕ) (f : InFile)
    → (bit_and fr.flags cap_f_crc32 == 0) ≡ false
    → dst_sz + 4 ≤ fr.len
    → cap_read_payload hdr fb fr dst_sz f ≡ read_payload_crc dst_sz fr.len fb f
unfolding cap_read_payload
checked hdr fb fr dst_sz f flag long =
    let enough : ltb fr.len (dst_sz + 4) ≡ false = ground arith in rw (flag, enough) refl

if_true {ℓ} : {A : Type ℓ} (b : Bool) (x y : A) → b ≡ true → (if b then x else y) ≡ x
if_true b x y h = rw h refl

-- The checksum that the trailer stores.
abbrev pub sum_of : Bytes → Bytes → ℕ
sum_of fb p = crc32_ieee_final (crc32_ieee_update (crc32_ieee_update crc32_init fb) p)

module _ (fb payload : Bytes) (fb_bytes : AreBytes fb) (bytes : AreBytes payload) where
  pub crc-lt : sum_of fb payload < 2 ^ 32
  unfolding crc32_ieee_final
  crc-lt =
      bit_xor-lt 32 (crc32_ieee_update (crc32_ieee_update crc32_init fb) payload) 0xFFFFFFFF
        (update-lt (crc32_ieee_update crc32_init fb) payload
          (update-lt crc32_init fb (omega arith) fb_bytes) bytes)
        (omega arith)

  -- The payload that the writer leaves passes the reader's checksum.
  pub payload_whole :
      (hdr : CapHeader) (fr : CapFrame) (dst_sz : ℕ) (more : Bytes) (f : InFile)
      → (bit_and fr.flags cap_f_crc32 == 0) ≡ false
      → fr.len ≡ length payload + 4
      → dst_sz ≤ length payload
      → f.rest ≡ payload ++ (rec_trailer fb payload ++ more)
      → cap_read_payload hdr fb fr dst_sz f
        ≡ (filled (buffer dst_sz (take dst_sz payload)), record f { rest = more })
  unfolding rec_trailer
  payload_whole hdr fr dst_sz more f flag len fits at =
      let trailer = rec_trailer fb payload in
      let n : fr.len - 4 ≡ length payload = omega arith in
      let body : take (fr.len - 4) f.rest ≡ payload =
        rw (n, at) (take-append payload (trailer ++ more)) in
      let behind : drop (fr.len - 4) f.rest ≡ trailer ++ more =
        rw (n, at) (drop-append payload (trailer ++ more)) in
      let room : fr.len ≤ length f.rest =
        rw at
          (omega (arith, length-append payload (trailer ++ more), length-append trailer more)) in
      let gone : drop fr.len f.rest ≡ more =
        drop_eq fr.len (fr.len - 4 + 4) f.rest (omega arith)
        ∙ sym (drop-drop (fr.len - 4) 4 f.rest)
        ∙ ap (drop 4) behind in
      let stored = get-put_u32 (sum_of fb payload) [] crc-lt in
      let same : (sum_of fb (take (fr.len - 4) f.rest)
            == wire_get_u32 (take 4 (drop (fr.len - 4) f.rest)))
          ≡ true =
        rw (body, behind, stored) (==-refl (sum_of fb payload)) in
      checked hdr fb fr dst_sz f flag (omega arith)
      ∙ read_payload_crc-whole dst_sz fr.len fb f (omega arith) room
      ∙ ap₂ (λ g r. (g, record f { rest = r }))
          (if_true _ (filled (buffer dst_sz (take dst_sz (take (fr.len - 4) f.rest)))) mismatch same
            ∙ ap (λ p. filled (buffer dst_sz (take dst_sz p))) body)
          gone

  -- A file that ends inside it is at its end.
  pub payload_cut :
      (hdr : CapHeader) (fr : CapFrame) (dst_sz : ℕ) (f : InFile)
      → (bit_and fr.flags cap_f_crc32 == 0) ≡ false
      → fr.len ≡ length payload + 4
      → dst_sz ≤ length payload
      → length f.rest < fr.len
      → cap_read_payload hdr fb fr dst_sz f ≡ (why f, record f { rest = [] })
  payload_cut hdr fr dst_sz f flag len fits cut =
      checked hdr fb fr dst_sz f flag (omega arith)
      ∙ read_payload_crc-cut dst_sz fr.len fb f (omega arith) cut
