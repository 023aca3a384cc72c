-- ===== src/Client/Delivery.antt =====
-- The read loop gets there: once the bytes of a valid frame can be read, in pieces of any sizes,
-- the call returns it.
use imud.Prelude.{
  ℕ, ◌<◌, ◌≤◌, ◌≡◌, refl, ap, sym, ◌∙◌, true, false, List, [], ◌∷◌, ◌++◌, map, arith, length,
  length-append, length-drop, Bool-cases, inl, inr, dec_lt,
}
use mathlib.Core.Path.{subst}
use imud.Wire.{Bytes}
use imud.Client.Decode.{imud_packet_decode}
use imud.Client.Data.{FloatOps}
use imud.Client.Handle.{Imud, readable, packet, packet_ok, read_stream}
use imud.Client.Frames.{Skips, done, bad, NextFrame, split_unique, clash, NextFrame-unique}
use imud.Client.Stream.{
  unread, Accounts, read_stream-Accounts, assembled, left, size, partial_round, corrupt_round,
  packet_round, conserved, assembled_size,
}

Skips-length : {s t : Bytes} → Skips s t → length t ≤ length s
Skips-length (done _) = omega arith
Skips-length (bad f {rest = rest} e l b k) =
    omega (arith, Skips-length k, length-append f rest, ap (λ x. length x) e)

NextFrame-length : {s f rest : Bytes} → NextFrame s f rest → 288 ≤ length s
NextFrame-length {f = f} {rest = rest} n =
    omega (arith, Skips-length n.skipped, length-append f rest, n.size)

-- The next valid frame is behind an invalid one.
after_bad :
    (frame tail f rest : Bytes) {s t : Bytes}
    → Skips s t
    → s ≡ frame ++ tail
    → t ≡ f ++ rest
    → length frame ≡ 288
    → packet_ok frame 288 ≡ false
    → length f ≡ 288
    → packet_ok f 288 ≡ true
    → Skips tail t
after_bad frame tail f rest (done _) e e' l b lf ok =
    absurd (clash (split_unique f frame rest tail (lf ∙ sym l) (sym e' ∙ e)).0 ok b)
after_bad frame tail f rest (bad h {rest = r} {t = t} p lh q k) e e' l b lf ok =
    subst (λ x. Skips x t) (split_unique h frame r tail (lh ∙ sym l) (sym p ∙ e)).1 k

NextFrame-after_bad :
    (frame tail f rest : Bytes)
    → NextFrame (frame ++ tail) f rest
    → length frame ≡ 288
    → packet_ok frame 288 ≡ false
    → NextFrame tail f rest
NextFrame-after_bad frame tail f rest n l b = record {
  skipped = after_bad frame tail f rest n.skipped refl refl l b n.size n.ok;
  size = n.size;
  ok = n.ok;
}

module _ (ops : FloatOps) (f rest : Bytes) where
  left_shorter :
      (h : Imud) (n b : ℕ) (bs : Bytes)
      → length h.rx < 288
      → length (left ops h n (b ∷ bs)) ≤ length bs
  left_shorter h n b bs l = omega (arith, length-drop (size ops h n) (b ∷ bs))

  -- At least one byte is taken in each round, so as many rounds as bytes are enough.
  delivers :
      (ns : List ℕ) (h : Imud) (p : Bytes)
      → length h.rx < 288
      → length p ≤ length ns
      → NextFrame (h.rx ++ p) f rest
      → (read_stream ops h (map readable ns) p).outcome ≡ packet
  delivers [] h [] l k n = absurd (omega (arith, NextFrame-length n, length-append h.rx []))
  delivers [] h (b ∷ bs) l k n = absurd (omega arith)
  delivers (m ∷ ns) h [] l k n = absurd (omega (arith, NextFrame-length n, length-append h.rx []))
  delivers (m ∷ ns) h (b ∷ bs) l k n =
      let more = left_shorter h m b bs l in
      elim (dec_lt (length (assembled ops h m (b ∷ bs))) 288) [
        | yes q ↦ rw (partial_round ops h m (map readable ns) b bs q) (
            delivers ns (record h { rx = assembled ops h m (b ∷ bs) }) (left ops h m (b ∷ bs)) q
              (omega (arith, more))
              (subst (λ s. NextFrame s f rest) (sym (conserved ops h m (b ∷ bs))) n))
        | no q ↦ elim (Bool-cases (packet_ok (assembled ops h m (b ∷ bs)) 288)) [
          | inl ok ↦ rw (packet_round ops h m (map readable ns) b bs q ok)
          | inr no_good ↦ rw (corrupt_round ops h m (map readable ns) b bs q no_good) (
              delivers ns (record h { rx = [] }) (left ops h m (b ∷ bs)) (omega arith)
                (omega (arith, more))
                (NextFrame-after_bad (assembled ops h m (b ∷ bs)) (left ops h m (b ∷ bs)) f rest
                  (subst (λ s. NextFrame s f rest) (sym (conserved ops h m (b ∷ bs))) n)
                  (assembled_size ops h m (b ∷ bs) l q) no_good))
        ]
      ]

  -- If the stream holds a valid frame, and the socket becomes readable at least as often as bytes
  -- are pending, the call returns that frame, decoded, with the handle and the socket standing
  -- right behind it: how the bytes were cut into reads makes no difference.
  pub read_stream-delivers :
      (ns : List ℕ) (h : Imud) (pending : Bytes)
      → length h.rx < 288
      → length pending ≤ length ns
      → NextFrame (unread h pending) f rest
      → let r = read_stream ops h (map readable ns) pending in
        (r.outcome ≡ packet)
        × (r.handle.wire ≡ imud_packet_decode f)
        × (unread r.handle r.pending ≡ rest)
  read_stream-delivers ns h pending l k n =
      let r = read_stream ops h (map readable ns) pending in
      let won = delivers ns h pending l k n in
      let (g, m, e, w) =
        subst (λ o. Accounts (unread h pending) o r.handle r.pending) won
          (read_stream-Accounts ops (map readable ns) h pending l) in
      let same = NextFrame-unique g f r.pending rest refl m n in
      (won, w ∙ ap imud_packet_decode same.0, ap (λ t. t ++ r.pending) e ∙ same.1)
