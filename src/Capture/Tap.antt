-- ===== src/Capture/Tap.antt =====
-- src/capture.c, the tap ring between the sensor threads and the thread that writes the capture.
-- The mutex makes each call one step.
use imud.Prelude.{
  ℕ, zero, suc, ◌+◌, ◌-◌, ◌%◌, ◌^◌, ◌<◌, ◌≤◌, ◌≡◌, refl, ap, sym, ◌∙◌, true, false, List, [], ◌∷◌,
  ◌++◌, length, get_or, set, take, drop, arith, ltb, ◌==◌, if◌then◌else◌, ne→==, length-set,
  length-append, take_eq, take-append, take-all, lt→ltb, dec_lt, ℕ_discrete,
}
use imud.Types.{ImuSample, MagSample}
use imud.Wire.{u64}
use imud.Ring.Window.{window, length-window, window_of_ne_zero, window-set}

-- `cap_ring_rec_t`: the type and the union are one data type.
pub data CapRingRec : Type 0 where
  tap_imu : ℕ → ImuSample → CapRingRec
  tap_mag : ℕ → MagSample → CapRingRec

pub record CapRing : Type 0 where
  pub buf : List CapRingRec
  pub head : ℕ
  pub tail : ℕ
  pub count : ℕ
  pub dropped : ℕ

abbrev pub cap_ring_len : ℕ
cap_ring_len = 1024

-- On a full ring the newest record is dropped.
unfoldable pub ring_push : CapRing → CapRingRec → CapRing × ℕ
ring_push r x =
    if r.count == cap_ring_len then (record r { dropped = u64 (r.dropped + 1) }, 1) else (
      record r {
        buf = set r.buf r.head x;
        head = (r.head + 1) % cap_ring_len;
        count = r.count + 1;
      },
      0,
    )

unfoldable pub cap_ring_push_imu : CapRing → ImuSample → ℕ → CapRing × ℕ
cap_ring_push_imu r s mono = ring_push r (tap_imu mono s)

unfoldable pub cap_ring_push_mag : CapRing → MagSample → ℕ → CapRing × ℕ
cap_ring_push_mag r m mono = ring_push r (tap_mag mono m)

-- `while (n < max && r->count > 0)`, by the rounds left, `max`.
unfoldable pub cap_ring_pop : CapRingRec → ℕ → CapRing → List CapRingRec × CapRing
cap_ring_pop blank zero r = ([], r)
cap_ring_pop blank (suc max) r =
    let r' = record r { tail = (r.tail + 1) % cap_ring_len; count = r.count - 1 } in
    let (out, after) = cap_ring_pop blank max r' in
    if ltb 0 r.count then (get_or r.buf r.tail blank ∷ out, after) else ([], r)

add_one : (n : ℕ) → n + 1 ≡ suc n
add_one n = omega arith

none_left : (n : ℕ) → ¬ (0 < n) → n ≡ 0
none_left n h = omega arith

module _ (blank : CapRingRec) where
  -- The ring's contents, the oldest first.
  abbrev pub queue : CapRing → List CapRingRec
  queue r = window blank cap_ring_len r.buf r.tail r.count

  pub record Sound (r : CapRing) : Type 0 where
    pub size : length r.buf ≡ cap_ring_len
    pub tail_in : r.tail < cap_ring_len
    pub count_in : r.count ≤ cap_ring_len
    pub head_at : r.head ≡ (r.tail + r.count) % cap_ring_len

  -- From a sound ring, the first 1024 records that are pushed are kept in order and any that comes
  -- while they are all there is dropped, reported, and counted in `dropped`, modulo 2^64, so the
  -- history has no gap; a push that is kept leaves that count.
  pub ring_push_refines :
      (r : CapRing) (x : CapRingRec)
      → Sound r
      → Sound (ring_push r x).0
        × ((queue (ring_push r x).0 ≡ take cap_ring_len (queue r ++ (x ∷ [])))
            × (((ring_push r x).1 + length (queue (ring_push r x).0) ≡ length (queue r) + 1)
                × ((ring_push r x).0.dropped ≡ (
                    if ltb (length (queue r)) cap_ring_len
                    then r.dropped
                    else (r.dropped + 1) % 2 ^ 64))))
  unfolding ring_push
  ring_push_refines r x s = elim (ℕ_discrete r.count cap_ring_len) [
    | yes full ↦
        let t : (r.count == cap_ring_len) ≡ true = rw full refl in
        let n = length-window blank cap_ring_len r.buf r.tail r.count in
        rw (t, ring_push)
          (
            record {
              size = s.size;
              tail_in = s.tail_in;
              count_in = s.count_in;
              head_at = s.head_at;
            },
            (
              sym (
                  take_eq cap_ring_len (length (queue r)) (queue r ++ (x ∷ [])) (omega arith)
                  ∙ take-append (queue r) (x ∷ [])),
              (omega arith, ground (arith, n, full)),
            ),
          )
    | no free ↦
        let t = ne→== r.count cap_ring_len free in
        let n = length-window blank cap_ring_len r.buf r.tail r.count in
        let grown : window blank cap_ring_len (set r.buf r.head x) r.tail (r.count + 1)
            ≡ queue r ++ (x ∷ []) =
          ap (window blank cap_ring_len (set r.buf r.head x) r.tail) (add_one r.count)
          ∙ window-set blank cap_ring_len r.buf x r.count r.tail r.head s.size s.tail_in
              (omega (arith, s.count_in)) s.head_at in
        rw (t, ring_push)
          (
            record {
              size = length-set r.buf r.head x ∙ s.size;
              tail_in = s.tail_in;
              count_in = omega (arith, s.count_in);
              head_at = omega (arith, s.head_at);
            },
            (
              grown
                  ∙ sym (
                      take-all cap_ring_len (queue r ++ (x ∷ []))
                        (omega (arith, length-append (queue r) (x ∷ []), s.count_in))),
              (
                omega (
                  arith,
                  n,
                  length-window blank cap_ring_len (set r.buf r.head x) r.tail (r.count + 1),
                ),
                ground (arith, n, free, s.count_in),
              ),
            ),
          )
  ]

  -- The ring behind its oldest record.
  abbrev popped : CapRing → CapRing
  popped r = record r { tail = (r.tail + 1) % cap_ring_len; count = r.count - 1 }

  popped-Sound : (r : CapRing) → Sound r → 0 < r.count → Sound (popped r)
  popped-Sound r s more = record {
    size = s.size;
    tail_in = omega arith;
    count_in = omega (arith, s.count_in);
    head_at = s.head_at ∙ omega arith;
  }

  -- From a sound ring, a pop of at most `max` records takes the oldest there are, in order, and
  -- leaves the others.
  pub cap_ring_pop_refines :
      (max : ℕ) (r : CapRing)
      → Sound r
      → Sound (cap_ring_pop blank max r).1
        × (((cap_ring_pop blank max r).0 ≡ take max (queue r))
            × (queue (cap_ring_pop blank max r).1 ≡ drop max (queue r)))
  unfolding cap_ring_pop
  cap_ring_pop_refines zero r s = (s, (refl, refl))
  cap_ring_pop_refines (suc max) r s = elim (dec_lt 0 r.count) [
    | yes more ↦
        let t = lt→ltb 0 r.count more in
        let q = window_of_ne_zero blank cap_ring_len r.buf r.tail r.count (omega arith) in
        let (s', (out, left)) = cap_ring_pop_refines max (popped r) (popped-Sound r s more) in
        rw (t, cap_ring_pop)
          (
            s',
            (
              ap (◌∷◌ (get_or r.buf r.tail blank)) out ∙ ap (take (suc max)) (sym q),
              left ∙ ap (drop (suc max)) (sym q),
            ),
          )
    | no empty ↦
        let t : ltb 0 r.count ≡ false = ground arith in
        let q : queue r ≡ [] =
          ap (window blank cap_ring_len r.buf r.tail) (none_left r.count empty) in
        rw (t, cap_ring_pop) (s, (sym (ap (take (suc max)) q), q ∙ sym (ap (drop (suc max)) q)))
  ]
