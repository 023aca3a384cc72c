-- ===== src/Capture/Replay.antt =====
-- The writer of src/capture.c against its reader: what was written, whole or cut off, is what a
-- replay sees.
use imud.Prelude.{
  ℕ, zero, suc, ◌-◌, ◌<◌, ◌≤◌, ◌≡◌, refl, ap, ap₂, sym, ◌∙◌, true, false, Bool-cases, inl, inr,
  List, [], ◌∷◌, ◌++◌, Option, none, some, arith, length, take, drop, if◌then◌else◌, dec_le, map,
  leb, take-nil, append-nil, append_assoc, length-append, length-take, take-append, drop-append,
  take_cut, take_eq, take-all, dec_lt,
}
use imud.Wire.{Bytes}
use imud.Capture.{CapHeader, CapRecord, frame_encode}
use imud.Capture.Writer.{rec_trailer}
use imud.Capture.Reader.{InFile, Next, got_record, next_record, returns, one_record}
use imud.Capture.Payload.{fread-none}
use imud.Capture.Checked.{payload_whole, payload_cut}
use imud.Capture.Entries.{
  Entry, entry_payload, entry_frame, entry_bytes, entry_record, EntryFits, payload-AreBytes,
  frame-AreBytes, entry_frame-FrameFits, entry_len, entry_size, entry_room, entry_checked,
  read_frame, switch_whole, switch_cut, ended,
}

trailer_size : (fb payload : Bytes) → length (rec_trailer fb payload) ≡ 4
unfolding rec_trailer
trailer_size fb payload = refl

module _ (e : Entry) (fits : EntryFits e) where
  abbrev fb : Bytes
  fb = frame_encode (entry_frame e)

  -- A record of the writer comes back from the reader, which stands behind it then.
  pub one_record-entry :
      (hdr : CapHeader) (f : InFile) (more : Bytes)
      → f.rest ≡ entry_bytes e ++ more
      → one_record hdr f ≡ returns (got_record (entry_record e)) (record f { rest = more })
  unfolding frame_encode
  one_record-entry hdr f more at =
      let tail = entry_payload e ++ (rec_trailer fb (entry_payload e) ++ more) in
      let shape : f.rest ≡ fb ++ tail =
        at
        ∙ append_assoc fb (entry_payload e ++ rec_trailer fb (entry_payload e)) more
        ∙ ap (◌++◌ fb) (append_assoc (entry_payload e) (rec_trailer fb (entry_payload e)) more) in
      let behind : drop 12 f.rest ≡ tail = rw shape (drop-append fb tail) in
      read_frame hdr (entry_frame e) f (entry_frame-FrameFits e fits)
        (rw shape (omega (arith, length-append fb tail))) (rw shape (take-append fb tail))
      ∙ switch_whole e hdr fb (record f { rest = drop 12 f.rest }) (record f { rest = more }) fits
          (payload_whole fb (entry_payload e) (frame-AreBytes (entry_frame e)) (payload-AreBytes e)
            hdr (entry_frame e) (entry_size e) more (record f { rest = drop 12 f.rest })
            (entry_checked e) (entry_len e) (entry_room e) behind)

  -- A record that is cut off ends the replay.
  pub one_record-cut :
      (hdr : CapHeader) (f : InFile) (k : ℕ)
      → k < length (entry_bytes e)
      → f.rest ≡ take k (entry_bytes e)
      → one_record hdr f ≡ returns (ended f) (record f { rest = [] })
  unfolding one_record frame_encode
  one_record-cut hdr f k lt_all at =
      let tail = entry_payload e ++ rec_trailer fb (entry_payload e) in
      let size : length f.rest ≡ k = rw at (omega (arith, length-take k (entry_bytes e))) in
      elim (dec_lt k 12) [
        | yes few ↦ let gone = fread-none 12 f (omega arith) in rw (gone, one_record, gone) refl
        | no more ↦
            let shape : f.rest ≡ fb ++ take (k - 12) tail =
              at
              ∙ take_cut k fb tail
              ∙ ap₂ ◌++◌ (take-all k fb (omega arith))
                  (take_eq (k - length fb) (k - 12) tail refl) in
            let behind : drop 12 f.rest ≡ take (k - 12) tail =
              rw shape (drop-append fb (take (k - 12) tail)) in
            read_frame hdr (entry_frame e) f (entry_frame-FrameFits e fits) (omega arith)
              (rw shape (take-append fb (take (k - 12) tail)))
            ∙ switch_cut e hdr fb (record f { rest = drop 12 f.rest }) (record f { rest = [] })
                (payload_cut fb (entry_payload e) (frame-AreBytes (entry_frame e))
                  (payload-AreBytes e) hdr (entry_frame e) (entry_size e)
                  (record f { rest = drop 12 f.rest }) (entry_checked e) (entry_len e)
                  (entry_room e)
                  (rw behind (
                    omega (
                      arith,
                      length-take (k - 12) tail,
                      length-append (entry_payload e) (rec_trailer fb (entry_payload e)),
                      trailer_size fb (entry_payload e),
                      entry_len e,
                    ))))
      ]

abbrev pub AllFit : List Entry → Type 0
AllFit [] = Unit {0}
AllFit (e ∷ es) = EntryFits e × AllFit es

-- The records of a file, one after another.
abbrev pub all_bytes : List Entry → Bytes
all_bytes [] = []
all_bytes (e ∷ es) = entry_bytes e ++ all_bytes es

-- How many of them are whole in the first `n` bytes.
unfoldable pub whole_in : ℕ → List Entry → ℕ
whole_in n [] = 0
whole_in n (e ∷ es) =
    let rest = whole_in (n - length (entry_bytes e)) es in
    if leb (length (entry_bytes e)) n then suc rest else 0

-- A replay: `cap_reader_next` until it returns something else than 1, for so many rounds.
unfoldable pub replay : ℕ → CapHeader → InFile → List CapRecord × Option Next
replay zero hdr f = ([], none)
replay (suc rounds) hdr f = elim (next_record (suc (length f.rest)) hdr f) [
  | none ↦ ([], none)
  | some (n, f') ↦ elim n [
    | got_record r ↦ let (rs, last) = replay rounds hdr f' in (r ∷ rs, last)
    | other ↦ ([], some other)
  ]
]

replay-stop :
    (rounds : ℕ) (hdr : CapHeader) (f f' : InFile)
    → one_record hdr f ≡ returns (ended f) f'
    → replay (suc rounds) hdr f ≡ ([], some (ended f))
unfolding replay next_record
replay-stop rounds hdr f f' e = elim (Bool-cases f.fault) [
  | inl t ↦ rw (e, replay, t) refl
  | inr t ↦ rw (e, replay, t) refl
]

replay-go :
    (rounds : ℕ) (hdr : CapHeader) (f f' : InFile) (r : CapRecord)
    → one_record hdr f ≡ returns (got_record r) f'
    → replay (suc rounds) hdr f ≡ (r ∷ (replay rounds hdr f').0, (replay rounds hdr f').1)
unfolding replay next_record
replay-go rounds hdr f f' r e = rw (e, replay) refl

one_record-end :
    (hdr : CapHeader) (f : InFile)
    → f.rest ≡ []
    → one_record hdr f ≡ returns (ended f) (record f { rest = [] })
unfolding one_record
one_record-end hdr f at =
    let e = fread-none 12 f (rw at (omega arith)) in rw (e, one_record, e) refl

whole_in-yes :
    (e : Entry) (es : List Entry) (n : ℕ)
    → length (entry_bytes e) ≤ n
    → whole_in n (e ∷ es) ≡ suc (whole_in (n - length (entry_bytes e)) es)
unfolding whole_in
whole_in-yes e es n h = let t : leb (length (entry_bytes e)) n ≡ true = ground arith in rw t refl

whole_in-no :
    (e : Entry) (es : List Entry) (n : ℕ) → n < length (entry_bytes e) → whole_in n (e ∷ es) ≡ 0
unfolding whole_in
whole_in-no e es n h = let t : leb (length (entry_bytes e)) n ≡ false = ground arith in rw t refl

-- Where a file of records, each as the writer makes it and with numbers that fit, is cut off after
-- any number of bytes, a replay gives the records that are whole, in order, and then the end of
-- the file, or the error of a read that failed there.
pub replay-cut :
    (es : List Entry) (n : ℕ) (hdr : CapHeader) (f : InFile)
    → AllFit es
    → f.rest ≡ take n (all_bytes es)
    → replay (suc (length es)) hdr f ≡ (map entry_record (take (whole_in n es) es), some (ended f))
replay-cut [] n hdr f fits at =
    replay-stop 0 hdr f (record f { rest = [] }) (one_record-end hdr f (at ∙ take-nil n))
    ∙ ap (λ l. (map entry_record l, some (ended f))) (sym (take-nil (whole_in n [])))
replay-cut (e ∷ es) n hdr f fits at = elim (dec_le (length (entry_bytes e)) n) [
  | yes le ↦
      let left = n - length (entry_bytes e) in
      let behind = record f { rest = take left (all_bytes es) } in
      let at' : f.rest ≡ entry_bytes e ++ take left (all_bytes es) =
        at
        ∙ take_cut n (entry_bytes e) (all_bytes es)
        ∙ ap (λ p. p ++ take left (all_bytes es)) (take-all n (entry_bytes e) le) in
      replay-go (length (e ∷ es)) hdr f behind (entry_record e)
        (one_record-entry e fits.0 hdr f (take left (all_bytes es)) at')
      ∙ ap (λ p. (entry_record e ∷ p.0, p.1)) (replay-cut es left hdr behind fits.1 refl)
      ∙ ap (λ k. (map entry_record (take k (e ∷ es)), some (ended f)))
          (sym (whole_in-yes e es n le))
  | no gt ↦
      let at' : f.rest ≡ take n (entry_bytes e) =
        at
        ∙ take_cut n (entry_bytes e) (all_bytes es)
        ∙ ap (◌++◌ (take n (entry_bytes e)))
            (take_eq (n - length (entry_bytes e)) 0 (all_bytes es) (omega arith))
        ∙ append-nil (take n (entry_bytes e)) in
      replay-stop (length (e ∷ es)) hdr f (record f { rest = [] })
        (one_record-cut e fits.0 hdr f n (omega arith) at')
      ∙ ap (λ k. (map entry_record (take k (e ∷ es)), some (ended f)))
          (sym (whole_in-no e es n (omega arith)))
]
