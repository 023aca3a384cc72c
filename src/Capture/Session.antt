-- ===== src/Capture/Session.antt =====
-- src/capture.c, end to end: a capture that is opened, written until the disk is full or the
-- samples end, and replayed.
use imud.Prelude.{
  ℕ, suc, ◌+◌, ◌-◌, ◌^◌, ◌<◌, ◌≤◌, ◌≡◌, refl, ap, ap₂, sym, ◌∙◌, Bool, true, false, Bool-cases, inl,
  inr, List, [], ◌∷◌, ◌++◌, Option, none, some, arith, length, take, drop, replicate, min, leb,
  leb→le, if◌then◌else◌, map, append-nil, append_assoc, length-append, length-take,
  length-replicate, take-append, drop-append, take-nil, take_cut, take_eq, take-all, drop_eq,
}
use imud.Prelude.Text.{same_bytes}
use imud.Wire.{Bytes, u64}
use imud.Capture.{CapHeader, CapRecord, hdr_encode, frame_encode}
use imud.Capture.Writer.{
  OutFile, fwrite, fwrite_each, rec_trailer, rec_frame, CapWriter, name_field, new_header,
  cap_writer_open, cap_write_rec, cap_writer_imu, cap_writer_mag, cap_writer_mark,
}
use imud.Capture.Reader.{InFile, cap_reader_open, Next, at_end, opened}
use imud.Capture.Codec.{HeaderFits, hdr_decode-hdr_encode, hdr_encode-length}
use imud.Capture.Payload.{fread-some}
use imud.Capture.Entries.{Entry, imu_entry, mag_entry, mark_entry, entry_bytes, entry_record}
use imud.Capture.Replay.{AllFit, all_bytes, whole_in, replay, replay-cut}

-- A file after it was given some bytes: what there is room for.
abbrev stored : Bytes → OutFile → OutFile
stored p f = record { written = f.written ++ take f.room p; room = f.room - length p }

leb-gt : (a b : ℕ) → leb a b ≡ false → b < a
leb-gt a b h = ground arith

le-leb : (a b : ℕ) → a ≤ b → leb a b ≡ true
le-leb a b h = ground arith

gt-leb : (a b : ℕ) → b < a → leb a b ≡ false
gt-leb a b h = ground arith

fwrite-stored : (p : Bytes) (f : OutFile) → fwrite p f ≡ (stored p f, leb (length p) f.room)
unfolding fwrite
fwrite-stored p f = elim (Bool-cases (leb (length p) f.room)) [
  | inl t ↦ rw (t, take-all f.room p (leb→le _ _ t)) refl
  | inr t ↦
      let over : f.room < length p = leb-gt (length p) f.room t in
      let full : 0 ≡ f.room - length p = omega arith in
      rw t (ap (λ r. (record { written = f.written ++ take f.room p; room = r }, false)) full)
]

stored-append : (p q : Bytes) (f : OutFile) → stored (p ++ q) f ≡ stored q (stored p f)
stored-append p q f i = record {
  written =
      (ap (◌++◌ f.written) (take_cut f.room p q)
          ∙ sym (append_assoc f.written (take f.room p) (take (f.room - length p) q)))
        i;
  room = left i;
}
  where
    left : f.room - length (p ++ q) ≡ f.room - length p - length q
    left = omega (arith, length-append p q)

stored-full : (p : Bytes) (f : OutFile) → f.room ≡ 0 → stored p f ≡ f
stored-full p f h i = record {
  written = (ap (λ k. f.written ++ take k p) h ∙ append-nil f.written) i;
  room = left i;
}
  where
    left : f.room - length p ≡ f.room
    left = omega arith

stored-nil : (f : OutFile) → stored [] f ≡ f
stored-nil f i = record {
  written = (ap (◌++◌ f.written) (take-nil f.room) ∙ append-nil f.written) i;
  room = left i;
}
  where
    left : f.room - 0 ≡ f.room
    left = omega arith

-- Bytes that follow a write that did not fit are not taken.
stored-past : (p q : Bytes) (f : OutFile) → f.room < length p → stored (p ++ q) f ≡ stored p f
stored-past p q f h = stored-append p q f ∙ stored-full q (stored p f) (omega arith)

abbrev joined : List Bytes → Bytes
joined [] = []
joined (p ∷ ps) = p ++ joined ps

shifted : (a b c : ℕ) → a ≤ c → leb b (c - a) ≡ leb (a + b) c
shifted a b c h = ground arith

fwrite_each-stored :
    (ps : List Bytes) (f : OutFile)
    → fwrite_each ps f ≡ (stored (joined ps) f, leb (length (joined ps)) f.room)
unfolding fwrite_each
fwrite_each-stored [] f =
    ap₂ (λ g b. (g, b)) (sym (stored-nil f)) (sym (le-leb 0 f.room (omega arith)))
fwrite_each-stored (p ∷ ps) f = elim (Bool-cases (leb (length p) f.room)) [
  | inl t ↦
      let some_room = leb→le (length p) f.room t in
      let same : leb (length (joined ps)) (f.room - length p)
          ≡ leb (length (p ++ joined ps)) f.room =
        rw (length-append p (joined ps))
          (shifted (length p) (length (joined ps)) f.room some_room) in
      rw (fwrite-stored p f, fwrite_each, t)
        (fwrite_each-stored ps (stored p f)
          ∙ ap₂ (λ g b. (g, b)) (sym (stored-append p (joined ps) f)) same)
  | inr t ↦
      let over = leb-gt (length p) f.room t in
      let none_fit =
        gt-leb (length (p ++ joined ps)) f.room (omega (arith, length-append p (joined ps))) in
      rw (fwrite-stored p f, fwrite_each, t)
        (ap₂ (λ g b. (g, b)) (sym (stored-past p (joined ps) f over)) (sym none_fit))
]

-- A call of the writer, and calls until one fails.
unfoldable pub write_entry : CapWriter → Entry → CapWriter × Bool
write_entry w (imu_entry s mono) = cap_writer_imu w s mono
write_entry w (mag_entry m mono) = cap_writer_mag w m mono
write_entry w (mark_entry code mono) = cap_writer_mark w code mono

unfoldable pub write_all : CapWriter → List Entry → CapWriter
write_all w [] = w
write_all w (e ∷ es) =
    let (w', ok) = write_entry w e in let rest = write_all w' es in if ok then rest else w'

-- A call gave a file the bytes, and says whether they all fitted.
abbrev Took : Bytes → OutFile → CapWriter × Bool → Type 0
Took p f r = (r.0.file ≡ some (stored p f)) × (r.1 ≡ leb (length p) f.room)

abbrev rec_bytes : ℕ → ℕ → Bytes → ℕ → Bytes
rec_bytes kind flags payload mono =
    let fb = frame_encode (rec_frame kind flags payload mono) in
    fb ++ (payload ++ rec_trailer fb payload)

cap_write_rec-Took :
    (w : CapWriter) (f : OutFile) (kind flags : ℕ) (payload : Bytes) (mono : ℕ)
    → w.file ≡ some f
    → Took (rec_bytes kind flags payload mono) f (cap_write_rec w kind flags payload mono)
unfolding cap_write_rec
cap_write_rec-Took w f kind flags payload mono at =
    let fb = frame_encode (rec_frame kind flags payload mono) in
    let bytes = rec_bytes kind flags payload mono in
    let e = fwrite_each-stored (fb ∷ payload ∷ rec_trailer fb payload ∷ []) f in
    let n = append-nil (rec_trailer fb payload) in
    elim (Bool-cases (leb (length bytes) f.room)) [
      | inl t ↦ rw (at, cap_write_rec, e, n, t) (refl, refl)
      | inr t ↦ rw (at, cap_write_rec, e, n, t) (refl, refl)
    ]

-- The counters leave the file as it is.
counted_imu :
    (p : Bytes) (f : OutFile) (r : CapWriter × Bool)
    → Took p f r
    → Took p f (if r.1 then (record r.0 { n_imu = u64 (r.0.n_imu + 1) }, true) else (r.0, false))
counted_imu p f (w, true) took = took
counted_imu p f (w, false) took = took

counted_mag :
    (p : Bytes) (f : OutFile) (r : CapWriter × Bool)
    → Took p f r
    → Took p f (if r.1 then (record r.0 { n_mag = u64 (r.0.n_mag + 1) }, true) else (r.0, false))
counted_mag p f (w, true) took = took
counted_mag p f (w, false) took = took

write_entry-Took :
    (w : CapWriter) (f : OutFile) (e : Entry)
    → w.file ≡ some f
    → Took (entry_bytes e) f (write_entry w e)
unfolding write_entry cap_writer_imu cap_writer_mag cap_writer_mark
write_entry-Took w f (imu_entry s mono) at =
    counted_imu (entry_bytes (imu_entry s mono)) f _ (cap_write_rec-Took w f _ _ _ mono at)
write_entry-Took w f (mag_entry m mono) at =
    counted_mag (entry_bytes (mag_entry m mono)) f _ (cap_write_rec-Took w f _ _ _ mono at)
write_entry-Took w f (mark_entry code mono) at = cap_write_rec-Took w f _ _ _ mono at

write_all-stored :
    (es : List Entry) (w : CapWriter) (f : OutFile)
    → w.file ≡ some f
    → (write_all w es).file ≡ some (stored (all_bytes es) f)
unfolding write_all
write_all-stored [] w f at = at ∙ ap some (sym (stored-nil f))
write_all-stored (e ∷ es) w f at =
    let (file, ok) = write_entry-Took w f e at in
    elim (Bool-cases (leb (length (entry_bytes e)) f.room)) [
      | inl t ↦
          rw (ok, write_all, t)
            (write_all-stored es (write_entry w e).0 (stored (entry_bytes e) f) file
              ∙ ap some (sym (stored-append (entry_bytes e) (all_bytes es) f)))
      | inr t ↦
          rw (ok, write_all, t)
            (file
              ∙ ap some (
                  sym (
                    stored-past (entry_bytes e) (all_bytes es) f
                      (leb-gt (length (entry_bytes e)) f.room t))))
    ]

-- The bytes that a session leaves: the header and what there is room for.
session_bytes :
    (room : ℕ) (hdr : CapHeader) (es : List Entry)
    → length (hdr_encode hdr) ≡ 104
    → 104 ≤ room
    → (write_all (cap_writer_open (some (record { written = []; room = room })) hdr).0 es).file
      ≡ some (record {
        written = hdr_encode hdr ++ take (room - 104) (all_bytes es);
        room = room - 104 - length (all_bytes es);
      })
unfolding cap_writer_open
session_bytes room hdr es size enough =
    let f : OutFile = record { written = []; room = room } in
    let e = fwrite-stored (hdr_encode hdr) f in
    let t = le-leb (length (hdr_encode hdr)) room (omega arith) in
    let fit : take room (hdr_encode hdr) ≡ hdr_encode hdr =
      take-all room (hdr_encode hdr) (omega arith) in
    rw (e, cap_writer_open, t)
      (write_all-stored es _ (stored (hdr_encode hdr) f) refl ∙ rw (fit, size) refl)

-- A file open at its start, that can be read to its end.
abbrev pub whole_file : Bytes → InFile
whole_file b = record { whole = b; rest = b; seekable = true; fault = false }

name_field-length : (s : Bytes) → length (name_field s) ≡ 16
unfolding name_field
name_field-length s = omega (
  arith,
  length-append (take 15 s) (replicate (16 - min 15 (length s)) 0),
  length-take 15 s,
  length-replicate {A = ℕ} (16 - min 15 (length s)) 0,
)

-- A file that was written, opened and replayed.
unfoldable pub replayed : Option OutFile → CapHeader → ℕ → List CapRecord × Option Next
replayed none blank rounds = ([], none)
replayed (some f) blank rounds =
    let (r, o) = cap_reader_open (some (whole_file f.written)) blank in
    elim r.file [ none ↦ ([], none) | some g ↦ replay rounds r.hdr g ]

module _ (odr_hz odr_mhz : ℕ) (imu_driver mag_driver version : Bytes) (wall mono : ℕ)
    (hz_fits : odr_hz < 2 ^ 32) (mhz_fits : odr_mhz < 2 ^ 32) (wall_fits : wall < 2 ^ 64)
    (mono_fits : mono < 2 ^ 64) where
  abbrev hdr : CapHeader
  hdr = new_header odr_hz odr_mhz imu_driver mag_driver version wall mono

  new_header-HeaderFits : HeaderFits hdr
  unfolding new_header
  new_header-HeaderFits = record {
    magic = refl;
    version = omega arith;
    hdr_len = omega arith;
    imu_odr_hz = hz_fits;
    imu_driver = name_field-length imu_driver;
    mag_driver = name_field-length mag_driver;
    imud_version = name_field-length version;
    t0_wall_ns = wall_fits;
    t0_mono_ns = mono_fits;
    imu_odr_mhz = mhz_fits;
    file_flags = omega arith;
  }

  -- A file that starts with the header opens behind it.
  cap_reader_open-new_header :
      (blank : CapHeader) (more : Bytes)
      → cap_reader_open (some (whole_file (hdr_encode hdr ++ more))) blank ≡ (
        record {
          file = some (record (whole_file (hdr_encode hdr ++ more)) { rest = more });
          hdr = hdr;
        },
        opened,
      )
  unfolding cap_reader_open same_bytes new_header
  cap_reader_open-new_header blank more =
      let size = hdr_encode-length hdr new_header-HeaderFits in
      let b = hdr_encode hdr ++ more in
      let e = fread-some 104 (whole_file b) (omega (arith, length-append (hdr_encode hdr) more)) in
      let at : take 104 b ≡ hdr_encode hdr =
        take_eq 104 (length (hdr_encode hdr)) b (sym size) ∙ take-append (hdr_encode hdr) more in
      let behind : drop 104 b ≡ more =
        drop_eq 104 (length (hdr_encode hdr)) b (sym size) ∙ drop-append (hdr_encode hdr) more in
      let back = hdr_decode-hdr_encode hdr new_header-HeaderFits in
      rw (e, cap_reader_open, at, back, e)
        (ap (λ r. (record { file = some (record (whole_file b) { rest = r }); hdr = hdr }, opened))
          behind)

  -- A capture is opened on a file that has room for the header, with numbers that fit their
  -- types, and samples and marks that fit theirs are written until they end or the file is full.
  -- The file that is left opens, and its replay gives the records that were written whole, in
  -- order, each with what the driver delivered, and then the end.
  pub session :
      (room : ℕ) (es : List Entry) (blank : CapHeader)
      → 104 ≤ room
      → AllFit es
      → replayed
          (write_all (cap_writer_open (some (record { written = []; room = room })) hdr).0 es).file
          blank
          (suc (length es))
        ≡ (map entry_record (take (whole_in (room - 104) es) es), some at_end)
  unfolding replayed
  session room es blank enough fits =
      let more = take (room - 104) (all_bytes es) in
      let size = hdr_encode-length hdr new_header-HeaderFits in
      let left = session_bytes room hdr es size enough in
      let start = cap_reader_open-new_header blank more in
      ap (λ o. replayed o blank (suc (length es))) left
      ∙ ap (λ p. elim p.0.file [ none ↦ ([], none) | some g ↦ replay (suc (length es)) p.0.hdr g ])
          start
      ∙ replay-cut es (room - 104) hdr
          (record (whole_file (hdr_encode hdr ++ more)) { rest = more }) fits refl
