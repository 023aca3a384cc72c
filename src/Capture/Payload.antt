-- ===== src/Capture/Payload.antt =====
-- The payload readers of src/capture.c: the chunks of 128 bytes add up to one read of the whole.
use imud.Prelude.{
  ℕ, zero, suc, ◌+◌, ◌-◌, ◌<◌, ◌≤◌, ◌≡◌, refl, ap, ap₂, sym, ◌∙◌, [], ◌++◌, Option, none, some,
  arith, length, take, drop, min, ◌==◌, if◌then◌else◌, append-nil, append_assoc, length-take,
  length-drop, length-append, take_add, take_cut, take_eq, drop_eq, drop-drop, take-all, dec_le,
  take-nil,
}
use imud.Wire.{Bytes, wire_get_u32, crc32_init, crc32_ieee_update, crc32_ieee_final}
use imud.Wire.Crc.{update-append}
use imud.Capture.Reader.{InFile, fread, read_body, read_payload_crc, filled, mismatch, why, buffer}

pub fread-some :
    (n : ℕ) (f : InFile)
    → n ≤ length f.rest
    → fread n f ≡ (some (take n f.rest), record f { rest = drop n f.rest })
unfolding fread
fread-some n f h = ground arith

pub fread-none :
    (n : ℕ) (f : InFile) → length f.rest < n → fread n f ≡ (none, record f { rest = [] })
unfolding fread
fread-none n f h = ground arith

module _ (dst_sz : ℕ) where
  -- The state of the loop once `body` bytes have gone by.
  abbrev after_body : ℕ → ℕ → Bytes → InFile → Option (ℕ × Bytes) × InFile
  after_body body crc got f = (
    some (
      crc32_ieee_update crc (take body f.rest),
      got ++ take (dst_sz - length got) (take body f.rest),
    ),
    record f { rest = drop body f.rest },
  )

  -- A round's part of the buffer and the rounds' after it join up.
  buffer_step :
      (got xs ys : Bytes) (c : ℕ)
      → length xs ≡ c
      → got
          ++ take (min (dst_sz - length got) c) xs
          ++ take (dst_sz - length (got ++ take (min (dst_sz - length got) c) xs)) ys
        ≡ got ++ take (dst_sz - length got) (xs ++ ys)
  buffer_step got xs ys c l =
      let m = dst_sz - length got in
      let cut : take (min m c) xs ≡ take m xs = elim (dec_le m c) [
        | yes le ↦ take_eq (min m c) m xs (omega arith)
        | no gt ↦ take-all (min m c) xs (omega arith) ∙ sym (take-all m xs (omega arith))
      ] in
      let left : dst_sz - length (got ++ take (min m c) xs) ≡ m - length xs =
        omega (arith, length-append got (take (min m c) xs), length-take (min m c) xs) in
      append_assoc got (take (min m c) xs) (take (dst_sz - length (got ++ take (min m c) xs)) ys)
      ∙ ap (◌++◌ got) (ap₂ ◌++◌ cut (take_eq _ _ ys left) ∙ sym (take_cut m xs ys))

  after_body_step :
      (c body crc : ℕ) (got : Bytes) (f : InFile)
      → c ≤ body
      → body ≤ length f.rest
      → after_body
          (body - c)
          (crc32_ieee_update crc (take c f.rest))
          (got ++ take (min (dst_sz - length got) c) (take c f.rest))
          (record f { rest = drop c f.rest })
        ≡ after_body body crc got f
  after_body_step c body crc got f le l =
      let whole : take c f.rest ++ take (body - c) (drop c f.rest) ≡ take body f.rest =
        take_add c (body - c) f.rest ∙ take_eq (c + (body - c)) body f.rest (omega arith) in
      let sum =
        sym (update-append crc (take c f.rest) (take (body - c) (drop c f.rest)))
        ∙ ap (crc32_ieee_update crc) whole in
      let buf =
        buffer_step got (take c f.rest) (take (body - c) (drop c f.rest)) c
          (rw length-take (omega arith))
        ∙ ap (λ p. got ++ take (dst_sz - length got) p) whole in
      let gone =
        drop-drop c (body - c) f.rest ∙ drop_eq (c + (body - c)) body f.rest (omega arith) in
      λ i. (some (sum i, buf i), record f { rest = gone i })

  pub read_body-whole :
      (fuel body crc : ℕ) (got : Bytes) (f : InFile)
      → body ≤ fuel
      → body ≤ length f.rest
      → read_body fuel body dst_sz crc got f ≡ after_body body crc got f
  unfolding read_body crc32_ieee_update
  read_body-whole fuel zero crc got f h l = rw (take-nil (dst_sz - length got), append-nil got) refl
  read_body-whole zero (suc b) crc got f h l = absurd (omega arith)
  read_body-whole (suc fuel) (suc b) crc got f h l =
      let chunk = min (suc b) 128 in
      let scratch = take chunk f.rest in
      let got' = got ++ take (min (dst_sz - length got) chunk) scratch in
      let e = fread-some chunk f (omega arith) in
      rw (e, read_body, e)
        (read_body-whole fuel (suc b - chunk) (crc32_ieee_update crc scratch) got'
            (record f { rest = drop chunk f.rest }) (omega arith) (rw length-drop (omega arith))
          ∙ after_body_step chunk (suc b) crc got f (omega arith) l)

  pub read_body-cut :
      (fuel body crc : ℕ) (got : Bytes) (f : InFile)
      → body ≤ fuel
      → length f.rest < body
      → read_body fuel body dst_sz crc got f ≡ (none, record f { rest = [] })
  unfolding read_body
  read_body-cut fuel zero crc got f le h = absurd (omega arith)
  read_body-cut zero (suc b) crc got f le h = absurd (omega arith)
  read_body-cut (suc fuel) (suc b) crc got f le h =
      let chunk = min (suc b) 128 in
      let scratch = take chunk f.rest in
      let got' = got ++ take (min (dst_sz - length got) chunk) scratch in
      elim (dec_le chunk (length f.rest)) [
        | yes more ↦
            let e = fread-some chunk f more in
            rw (e, read_body, e)
              (read_body-cut fuel (suc b - chunk) (crc32_ieee_update crc scratch) got'
                (record f { rest = drop chunk f.rest }) (omega arith)
                (rw length-drop (omega arith)))
        | no less ↦ let e = fread-none chunk f (omega arith) in rw (e, read_body, e) refl
      ]

  -- What `read_payload_crc` finds where the payload and its trailer are all there.
  pub read_payload_crc-whole :
      (len : ℕ) (fb : Bytes) (f : InFile)
      → 4 ≤ len
      → len ≤ length f.rest
      → read_payload_crc dst_sz len fb f ≡ (
        if crc32_ieee_final
                (crc32_ieee_update (crc32_ieee_update crc32_init fb) (take (len - 4) f.rest))
              == wire_get_u32 (take 4 (drop (len - 4) f.rest))
            then filled (buffer dst_sz (take dst_sz (take (len - 4) f.rest)))
            else mismatch,
        record f { rest = drop len f.rest },
      )
  unfolding read_payload_crc
  read_payload_crc-whole len fb f h l =
      let e =
        read_body-whole (len - 4) (len - 4) (crc32_ieee_update crc32_init fb) [] f (omega arith)
          (omega arith) in
      let f' = record f { rest = drop (len - 4) f.rest } in
      let t = fread-some 4 f' (rw length-drop (omega arith)) in
      let z : dst_sz - 0 ≡ dst_sz = omega arith in
      rw (e, read_payload_crc, e, t, e, t, z)
        (ap
          (λ r. (
            if crc32_ieee_final
                    (crc32_ieee_update (crc32_ieee_update crc32_init fb) (take (len - 4) f.rest))
                  == wire_get_u32 (take 4 (drop (len - 4) f.rest))
                then filled (buffer dst_sz (take dst_sz (take (len - 4) f.rest)))
                else mismatch,
            record f { rest = r },
          ))
          (drop-drop (len - 4) 4 f.rest ∙ drop_eq (len - 4 + 4) len f.rest (omega arith)))

  -- And where the file ends inside them.
  pub read_payload_crc-cut :
      (len : ℕ) (fb : Bytes) (f : InFile)
      → 4 ≤ len
      → length f.rest < len
      → read_payload_crc dst_sz len fb f ≡ (why f, record f { rest = [] })
  unfolding read_payload_crc
  read_payload_crc-cut len fb f h l = elim (dec_le (len - 4) (length f.rest)) [
    | yes le ↦
        let e =
          read_body-whole (len - 4) (len - 4) (crc32_ieee_update crc32_init fb) [] f (omega arith)
            le in
        let f' = record f { rest = drop (len - 4) f.rest } in
        let t = fread-none 4 f' (rw length-drop (omega arith)) in
        rw (e, read_payload_crc, e, t, e, t) refl
    | no gt ↦
        let e =
          read_body-cut (len - 4) (len - 4) (crc32_ieee_update crc32_init fb) [] f (omega arith)
            (omega arith) in
        rw (e, read_payload_crc, e) refl
  ]
