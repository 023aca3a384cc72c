-- ===== src/Client/Stream.antt =====
-- The read loop on a stream: it hands out exactly the valid frames of the byte stream, whatever
-- sizes the reads come in.
use imud.Prelude.{
  ℕ, suc, ◌-◌, ◌<◌, ◌≡◌, ◌≢◌, refl, ap, sym, ◌∙◌, true, false, List, [], ◌∷◌, ◌++◌, arith, length,
  take, drop, min, ltb, length-append, length-take, take-append-drop, append_assoc, Bool-cases, inl,
  inr, lt→ltb, dec_lt,
}
use mathlib.Core.Path.{subst}
use imud.Wire.{Bytes}
use imud.Client.Decode.{imud_packet_decode}
use imud.Client.Data.{FloatOps}
use imud.Client.Handle.{
  Imud, Event, timeout, interrupted, poll_failed, read_again, read_failed, readable, Outcome,
  packet, timed_out, failed, waiting, after, packet_ok, deliver, read_stream,
}
use imud.Client.Frames.{Skips, done, bad, NextFrame}

-- The bytes that the handle has yet to account for: those of the frame in assembly, then those
-- in the socket.
abbrev pub unread : Imud → Bytes → Bytes
unread h pending = h.rx ++ pending

-- What a call did to the stream: a delivered packet is its next valid frame, and any other return
-- passed over nothing but whole invalid frames.
abbrev pub Accounts : Bytes → Outcome → Imud → Bytes → Type 0
Accounts s packet h rest =
    (frame : Bytes) × NextFrame s frame rest × (h.rx ≡ []) × (h.wire ≡ imud_packet_decode frame)
Accounts s _ h rest = Skips s (h.rx ++ rest) × (length h.rx < 288)

Accounts-skip :
    (o : Outcome) (h : Imud) (frame s rest tail : Bytes)
    → s ≡ frame ++ tail
    → length frame ≡ 288
    → packet_ok frame 288 ≡ false
    → Accounts tail o h rest
    → Accounts s o h rest
Accounts-skip packet h frame s rest tail e l b (f, n, r, w) =
    (f, record { skipped = bad frame e l b n.skipped; size = n.size; ok = n.ok }, r, w)
Accounts-skip timed_out h frame s rest tail e l b (k, r) = (bad frame e l b k, r)
Accounts-skip failed h frame s rest tail e l b (k, r) = (bad frame e l b k, r)
Accounts-skip waiting h frame s rest tail e l b (k, r) = (bad frame e l b k, r)

module _ (ops : FloatOps) where
  -- What a round takes of the pending bytes, what it has assembled then, and what is left.
  abbrev pub size : Imud → ℕ → ℕ
  size h n = min (suc n) (288 - length h.rx)

  abbrev pub assembled : Imud → ℕ → Bytes → Bytes
  assembled h n p = h.rx ++ take (size h n) p

  abbrev pub left : Imud → ℕ → Bytes → Bytes
  left h n p = drop (size h n) p

  pub partial_round :
      (h : Imud) (n : ℕ) (es : List Event) (b : ℕ) (bs : Bytes)
      → length (assembled h n (b ∷ bs)) < 288
      → read_stream ops h (readable n ∷ es) (b ∷ bs)
        ≡ read_stream ops (record h { rx = assembled h n (b ∷ bs) }) es (left h n (b ∷ bs))
  unfolding read_stream
  partial_round h n es b bs l = rw (lt→ltb (length (assembled h n (b ∷ bs))) 288 l)

  ltb-false : (m : ℕ) → ¬ (m < 288) → ltb m 288 ≡ false
  ltb-false m h = ground arith

  pub corrupt_round :
      (h : Imud) (n : ℕ) (es : List Event) (b : ℕ) (bs : Bytes)
      → ¬ (length (assembled h n (b ∷ bs)) < 288)
      → packet_ok (assembled h n (b ∷ bs)) 288 ≡ false
      → read_stream ops h (readable n ∷ es) (b ∷ bs)
        ≡ read_stream ops (record h { rx = [] }) es (left h n (b ∷ bs))
  unfolding read_stream
  corrupt_round h n es b bs l e = rw (ltb-false (length (assembled h n (b ∷ bs))) l, e)

  pub packet_round :
      (h : Imud) (n : ℕ) (es : List Event) (b : ℕ) (bs : Bytes)
      → ¬ (length (assembled h n (b ∷ bs)) < 288)
      → packet_ok (assembled h n (b ∷ bs)) 288 ≡ true
      → read_stream ops h (readable n ∷ es) (b ∷ bs)
        ≡ after
            (deliver ops (record h { rx = [] }) (assembled h n (b ∷ bs)))
            packet
            es
            (left h n (b ∷ bs))
  unfolding read_stream
  packet_round h n es b bs l e = rw (ltb-false (length (assembled h n (b ∷ bs))) l, e)

  -- A round loses no byte.
  pub conserved : (h : Imud) (n : ℕ) (p : Bytes) → assembled h n p ++ left h n p ≡ h.rx ++ p
  conserved h n p =
      append_assoc h.rx (take (size h n) p) (left h n p)
      ∙ ap (λ t. h.rx ++ t) (take-append-drop (size h n) p)

  pub assembled_size :
      (h : Imud) (n : ℕ) (p : Bytes)
      → length h.rx < 288
      → ¬ (length (assembled h n p) < 288)
      → length (assembled h n p) ≡ 288
  assembled_size h n p l k =
      omega (arith, length-append h.rx (take (size h n) p), length-take (size h n) p)

  deliver-fields :
      (h : Imud) (frame : Bytes)
      → ((deliver ops (record h { rx = [] }) frame).rx ≡ [])
        × ((deliver ops (record h { rx = [] }) frame).wire ≡ imud_packet_decode frame)
  unfolding deliver
  deliver-fields h frame = (refl, refl)

  idle :
      (o : Outcome) (h : Imud) (p : Bytes)
      → o ≢ packet
      → length h.rx < 288
      → Accounts (h.rx ++ p) o h p
  idle packet h p ne l = absurd (ne refl)
  idle timed_out h p ne l = (done (h.rx ++ p), l)
  idle failed h p ne l = (done (h.rx ++ p), l)
  idle waiting h p ne l = (done (h.rx ++ p), l)

  abbrev Accounted : Imud → List Event → Bytes → Type 0
  Accounted h es p =
      let r = read_stream ops h es p in Accounts (unread h p) r.outcome r.handle r.pending

  full_round :
      (h : Imud) (n : ℕ) (es : List Event) (b : ℕ) (bs : Bytes)
      → length h.rx < 288
      → ¬ (length (assembled h n (b ∷ bs)) < 288)
      → Accounted (record h { rx = [] }) es (left h n (b ∷ bs))
      → Accounted h (readable n ∷ es) (b ∷ bs)
  full_round h n es b bs l k later =
      let frame = assembled h n (b ∷ bs) in
      let whole = sym (conserved h n (b ∷ bs)) in
      let long = assembled_size h n (b ∷ bs) l k in
      elim (Bool-cases (packet_ok frame 288)) [
        | inl ok ↦ rw (packet_round h n es b bs k ok) (
          frame,
          record {
            skipped = subst (λ s. Skips (h.rx ++ (b ∷ bs)) s) whole (done (h.rx ++ (b ∷ bs)));
            size = long;
            ok = ok;
          },
          (deliver-fields h frame).0,
          (deliver-fields h frame).1,
        )
        | inr no_good ↦ rw (corrupt_round h n es b bs k no_good) (
            let r = read_stream ops (record h { rx = [] }) es (left h n (b ∷ bs)) in
            Accounts-skip r.outcome r.handle frame (h.rx ++ (b ∷ bs)) r.pending (left h n (b ∷ bs))
              whole long no_good later)
      ]

  read_round :
      (h : Imud) (n : ℕ) (es : List Event) (b : ℕ) (bs : Bytes)
      → length h.rx < 288
      → ((h' : Imud) (p : Bytes) → length h'.rx < 288 → Accounted h' es p)
      → Accounted h (readable n ∷ es) (b ∷ bs)
  read_round h n es b bs l later = elim (dec_lt (length (assembled h n (b ∷ bs))) 288) [
    | yes k ↦ rw (partial_round h n es b bs k) (
        subst
          (λ s.
            let r =
              read_stream ops (record h { rx = assembled h n (b ∷ bs) }) es (left h n (b ∷ bs)) in
            Accounts s r.outcome r.handle r.pending)
          (conserved h n (b ∷ bs))
          (later (record h { rx = assembled h n (b ∷ bs) }) (left h n (b ∷ bs)) k))
    | no k ↦
        full_round h n es b bs l k (later (record h { rx = [] }) (left h n (b ∷ bs)) (omega arith))
  ]

  -- Whatever the events and the sizes of the reads: a call that returns a packet has delivered the
  -- next valid frame of the byte stream, decoded, and stands at a frame boundary right behind it;
  -- any other call has dropped nothing but whole invalid frames, and holds less than a frame.
  pub read_stream-Accounts :
      (es : List Event) (h : Imud) (pending : Bytes)
      → length h.rx < 288
      → let r = read_stream ops h es pending in
        Accounts (unread h pending) r.outcome r.handle r.pending
  unfolding read_stream
  read_stream-Accounts [] h p l = idle waiting h p (λ e. cc) l
  read_stream-Accounts (timeout ∷ es) h p l = idle timed_out h p (λ e. cc) l
  read_stream-Accounts (interrupted ∷ es) h p l = idle timed_out h p (λ e. cc) l
  read_stream-Accounts (poll_failed ∷ es) h p l = idle failed h p (λ e. cc) l
  read_stream-Accounts (read_failed ∷ es) h p l = idle failed h p (λ e. cc) l
  read_stream-Accounts (read_again ∷ es) h p l = read_stream-Accounts es h p l
  read_stream-Accounts (readable n ∷ es) h [] l = idle failed h [] (λ e. cc) l
  read_stream-Accounts (readable n ∷ es) h (b ∷ bs) l =
      read_round h n es b bs l (read_stream-Accounts es)
