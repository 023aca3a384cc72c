-- ===== src/ChipTs/Stamps.antt =====
-- The stamps of one burst: their spacing, their ends, and what the guard keeps of them.
use imud.Prelude.{
  ℕ, suc, ◌+◌, ◌-◌, ◌*◌, ◌^◌, ◌<◌, ◌≤◌, ◌≡◌, refl, ap, sym, ◌∙◌, ◌⊎◌, inl, inr, Bool, true, false,
  List, [], ◌∷◌, some, arith, length, dec_lt, Option-cases, if◌then◌else◌, ltb,
}
use imud.Types.{ImuSample}
use imud.Wire.{Bytes, wire_get_u32}
use imud.ChipTs.{
  sub32, add32, mul32, chip_ts_guard_refused, chip_ts_guard_accepted, chip_ts_guard_note,
  chip_ts_guard_next, chip_ts_guard_forward_ok, chip_ts_guard_backward_ok,
}
use imud.ChipTs.Fifo.{StFifoTs, stamp_from_anchor, newest_from_anchor, st_fifo_ts_apply}
use imud.ChipTs.Burst.{
  Driver, stamp_back, shift_stamps, first_ts, last_ts, choose_burst_ts, refuse_reading,
  take_reading, note_newest, stamp_fallback, stamp_anchored, stamp_burst, stamp_by, count_event,
}
use imud.ChipTs.Seam.{Tracking, choose_burst_ts-Follows}
use mathlib.Core.Path.{subst}

-- Neighbouring samples are one period apart, round the 32-bit counter.
abbrev pub Spaced : ℕ → List ImuSample → Type 0
Spaced step [] = Unit {0}
Spaced step (x ∷ []) = Unit {0}
Spaced step (x ∷ y ∷ ys) = (sub32 y.chip_ts x.chip_ts ≡ step) × Spaced step (y ∷ ys)

step_back :
    (t step n : ℕ)
    → step < 2 ^ 32
    → sub32 (sub32 t (mul32 n step)) (sub32 t (mul32 (suc n) step)) ≡ step
step_back t step n h = omega arith

stamp_back-Spaced :
    (t step : ℕ) (buf : List ImuSample) → step < 2 ^ 32 → Spaced step (stamp_back t step buf)
unfolding stamp_back
stamp_back-Spaced t step [] h = tt
stamp_back-Spaced t step (x ∷ []) h = tt
stamp_back-Spaced t step (x ∷ y ∷ ys) h =
    (step_back t step (length ys) h, stamp_back-Spaced t step (y ∷ ys) h)

last-stamp_back :
    (t step : ℕ) (x : ImuSample) (xs : List ImuSample)
    → t < 2 ^ 32
    → last_ts (stamp_back t step (x ∷ xs)) ≡ t
unfolding stamp_back
last-stamp_back t step x [] h = omega arith
last-stamp_back t step x (y ∷ ys) h = last-stamp_back t step y ys h

-- Every stamp is a 32-bit word.
abbrev pub AreWords : List ImuSample → Type 0
AreWords [] = Unit {0}
AreWords (x ∷ xs) = (x.chip_ts < 2 ^ 32) × AreWords xs

shift_step :
    (a b shift step : ℕ)
    → a < 2 ^ 32
    → b < 2 ^ 32
    → sub32 b a ≡ step
    → sub32 (add32 b shift) (add32 a shift) ≡ step
shift_step a b shift step ha hb e = omega arith

shift_stamps-Spaced :
    (shift step : ℕ) (buf : List ImuSample)
    → AreWords buf
    → Spaced step buf
    → Spaced step (shift_stamps shift buf)
unfolding shift_stamps
shift_stamps-Spaced shift step [] w s = tt
shift_stamps-Spaced shift step (x ∷ []) w s = tt
shift_stamps-Spaced shift step (x ∷ y ∷ ys) (wx, (wy, ws)) (e, s) = (
  shift_step x.chip_ts y.chip_ts shift step wx wy e,
  shift_stamps-Spaced shift step (y ∷ ys) (wy, ws) s,
)

stamp_from_anchor-AreWords :
    (s : StFifoTs) (step i : ℕ) (buf : List ImuSample) → AreWords (stamp_from_anchor s step i buf)
unfolding stamp_from_anchor
stamp_from_anchor-AreWords s step i [] = tt
stamp_from_anchor-AreWords s step i (x ∷ xs) =
    (omega arith, stamp_from_anchor-AreWords s step (i + 1) xs)

-- One index further is one period later, also where the index difference wraps.
anchor_step :
    (ts step k : ℕ)
    → step < 2 ^ 32
    → sub32 (add32 ts (mul32 (suc k) step)) (add32 ts (mul32 k step)) ≡ step
anchor_step ts step k h = omega arith

anchor_step_wrapped :
    (ts step : ℕ)
    → step < 2 ^ 32
    → sub32 (add32 ts (mul32 0 step)) (add32 ts (mul32 (2 ^ 32 - 1) step)) ≡ step
anchor_step_wrapped ts step h = omega arith

next_index :
    (i idx : ℕ)
    → idx ≤ 2 ^ 32
    → (sub32 (i + 1) idx ≡ suc (sub32 i idx))
      ⊎ ((sub32 (i + 1) idx ≡ 0) × (sub32 i idx ≡ 2 ^ 32 - 1))
next_index i idx h = elim (dec_lt (sub32 i idx) (2 ^ 32 - 1)) [
  | yes p ↦ inl (omega arith)
  | no p ↦ inr (omega arith)
]

stamp_from_anchor-Spaced :
    (s : StFifoTs) (step i : ℕ) (buf : List ImuSample)
    → step < 2 ^ 32
    → s.idx ≤ 2 ^ 32
    → Spaced step (stamp_from_anchor s step i buf)
unfolding stamp_from_anchor
stamp_from_anchor-Spaced s step i [] h k = tt
stamp_from_anchor-Spaced s step i (x ∷ []) h k = tt
stamp_from_anchor-Spaced s step i (x ∷ y ∷ ys) h k = (
  elim (next_index i s.idx k) [
    | inl e ↦ rw e (anchor_step s.ts step (sub32 i s.idx) h)
    | inr (e, f) ↦ rw (e, f) (anchor_step_wrapped s.ts step h)
  ],
  stamp_from_anchor-Spaced s step (i + 1) (y ∷ ys) h k,
)

fallback_step :
    (d : Driver) (now_ts n : ℕ) (overflow : Bool)
    → (choose_burst_ts d now_ts n overflow).0.ticks_per_sample ≡ d.ticks_per_sample
unfolding choose_burst_ts refuse_reading take_reading chip_ts_guard_refused
fallback_step d now_ts n overflow = ground arith

stamp_fallback-Spaced :
    (d : Driver) (fts : StFifoTs) (buf : List ImuSample) (now_ts : ℕ) (overflow : Bool)
    → d.ticks_per_sample < 2 ^ 32
    → Spaced d.ticks_per_sample (stamp_fallback d fts buf now_ts overflow).1
unfolding stamp_fallback
stamp_fallback-Spaced d fts buf now_ts overflow h =
    rw (fallback_step d now_ts (length buf) overflow) (
      stamp_back-Spaced (choose_burst_ts d now_ts (length buf) overflow).1 d.ticks_per_sample buf h)

stamp_anchored-Spaced :
    (d : Driver) (buf : List ImuSample)
    → AreWords buf
    → Spaced d.ticks_per_sample buf
    → Spaced d.ticks_per_sample (stamp_anchored d buf).1
unfolding stamp_anchored
stamp_anchored-Spaced d buf w s = shift_stamps-Spaced _ d.ticks_per_sample buf w s

-- What an accepted anchor gives: the stamps of its extrapolation, with the newest one at most a
-- second of ticks older than the register.
pub st_fifo_ts_apply-some :
    (s : StFifoTs) (buf stamped : List ImuSample) (ticks now_ts : ℕ)
    → st_fifo_ts_apply s buf ticks now_ts ≡ some stamped
    → (stamped ≡ stamp_from_anchor s ticks 0 buf)
      × (s.have_word ≡ true)
      × (s.idx < length buf)
      × (sub32 now_ts (newest_from_anchor s (length buf) ticks) ≤ 40000)
unfolding st_fifo_ts_apply
st_fifo_ts_apply-some s buf stamped ticks now_ts e = ground arith

-- On every path on which the register read came back, whether the anchor or the fallback stamps
-- the burst, neighbouring samples are exactly one sample period apart on the 32-bit counter.
pub stamp_burst-Spaced :
    (d : Driver) (fts : StFifoTs) (buf : List ImuSample) (reg : Bytes) (overflow : Bool)
    → d.ticks_per_sample < 2 ^ 32
    → length buf ≤ 2 ^ 31
    → Spaced d.ticks_per_sample (stamp_burst d fts buf (some reg) overflow).1
unfolding stamp_burst stamp_by
stamp_burst-Spaced d fts [] reg overflow h n = tt
stamp_burst-Spaced d fts (x ∷ xs) reg overflow h n =
    elim (Option-cases (st_fifo_ts_apply fts (x ∷ xs) d.ticks_per_sample (wire_get_u32 reg))) [
      | inl refused ↦
          rw (refused, stamp_by)
            (stamp_fallback-Spaced d fts (x ∷ xs) (wire_get_u32 reg) overflow h)
      | inr (buf, taken) ↦
          rw (taken, stamp_by)
            (anchored buf
              (st_fifo_ts_apply-some fts (x ∷ xs) buf d.ticks_per_sample (wire_get_u32 reg) taken))
    ]
  where
    anchored :
        (buf : List ImuSample)
        → (buf ≡ stamp_from_anchor fts d.ticks_per_sample 0 (x ∷ xs))
          × (fts.have_word ≡ true)
          × (fts.idx < length (x ∷ xs))
          × (sub32 (wire_get_u32 reg) (newest_from_anchor fts (length (x ∷ xs)) d.ticks_per_sample)
              ≤ 40000)
        → Spaced d.ticks_per_sample (stamp_anchored d buf).1
    anchored buf (e, _, i, _) = rw e (
        stamp_anchored-Spaced d (stamp_from_anchor fts d.ticks_per_sample 0 (x ∷ xs))
          (stamp_from_anchor-AreWords fts d.ticks_per_sample 0 (x ∷ xs))
          (stamp_from_anchor-Spaced fts d.ticks_per_sample 0 (x ∷ xs) h (omega arith)))

first-stamp_back :
    (t step : ℕ) (x : ImuSample) (xs : List ImuSample)
    → first_ts (stamp_back t step (x ∷ xs)) ≡ sub32 t (mul32 (length xs) step)
unfolding stamp_back
first-stamp_back t step x xs = refl

note_newest-Tracking :
    (d d' : Driver) (buf : List ImuSample)
    → Tracking d
    → d'.ticks_per_sample ≡ d.ticks_per_sample
    → last_ts buf < 2 ^ 32
    → Tracking (note_newest d' buf) × ((note_newest d' buf).ts_guard.last ≡ last_ts buf)
unfolding note_newest chip_ts_guard_note
note_newest-Tracking d d' buf t e w = (
  record {
    seen = refl;
    word = w;
    step_pos = omega (arith, e, t.step_pos);
    step_small = omega (arith, e, t.step_small);
  },
  refl,
)

count_rejects :
    (b : Bool) (d : Driver)
    → (if b then record d { rejects = count_event d.rejects } else d).ticks_per_sample
      ≡ d.ticks_per_sample
count_rejects true d = refl
count_rejects false d = refl

-- A burst that the fallback stamps, with no overflow and fewer than three refusals behind it,
-- begins after the last stamp of the burst before, by at least one tick and at most eight sample
-- periods on the 32-bit counter, and leaves the guard tracking its newest stamp, so that the next
-- burst can be held to it.
pub stamp_fallback-seam :
    (d : Driver) (fts : StFifoTs) (x : ImuSample) (xs : List ImuSample) (now_ts : ℕ)
    → Tracking d
    → d.ts_guard.refusals < 3
    → now_ts < 2 ^ 32
    → let (d', stamped) = stamp_fallback d fts (x ∷ xs) now_ts false in
      let gap = sub32 (first_ts stamped) d.ts_guard.last in
      (0 < gap)
      × (gap ≤ 8 * d.ticks_per_sample)
      × Tracking d'
      × (d'.ts_guard.last ≡ last_ts stamped)
unfolding stamp_fallback
stamp_fallback-seam d fts x xs now_ts t h hn =
    let n = suc (length xs) in
    let c = choose_burst_ts d now_ts n false in
    let step = d.ticks_per_sample in
    let f = choose_burst_ts-Follows d now_ts n t h hn in
    let noted =
      note_newest-Tracking d
        (if fts.have_word then record c.0 { rejects = count_event c.0.rejects } else c.0)
        (stamp_back c.1 c.0.ticks_per_sample (x ∷ xs)) t
        (count_rejects fts.have_word c.0 ∙ f.same_step)
        (rw (last-stamp_back c.1 c.0.ticks_per_sample x xs f.newest_word) f.newest_word) in
    let same_length : length xs ≡ suc (length xs) - 1 = omega arith in
    let oldest : first_ts (stamp_back c.1 c.0.ticks_per_sample (x ∷ xs))
        ≡ sub32 c.1 (mul32 (n - 1) step) =
      first-stamp_back c.1 c.0.ticks_per_sample x xs
      ∙ ap (λ s. sub32 c.1 (mul32 (length xs) s)) f.same_step
      ∙ ap (λ k. sub32 c.1 (mul32 k step)) same_length in
    (
      subst (λ k. 0 < sub32 k d.ts_guard.last) (sym oldest) f.forward,
      subst (λ k. sub32 k d.ts_guard.last ≤ 8 * step) (sym oldest) f.near,
      noted.0,
      noted.1,
    )

-- What a reading fails: the forward or the backward test of the guard, for a burst of n samples.
abbrev pub FailsTest : Driver → ℕ → ℕ → Type 0
FailsTest d now_ts n =
    let first = sub32 now_ts (mul32 (n - 1) d.ticks_per_sample) in
    (chip_ts_guard_forward_ok d.ts_guard first (mul32 d.ticks_per_sample 8) ≡ false)
    ⊎ (chip_ts_guard_backward_ok d.ts_guard first 40000 ≡ false)

-- The newest stamp after a refusal: the burst follows the last stamp without a gap.
abbrev pub follow_on : Driver → ℕ → ℕ
follow_on d n =
    let step = d.ticks_per_sample in add32 (add32 d.ts_guard.last step) (mul32 (n - 1) step)

choose_burst_ts_bad :
    (d : Driver) (now_ts n : ℕ)
    → d.ts_guard.refusals ≤ 3
    → FailsTest d now_ts n
    → let (d', t) = choose_burst_ts d now_ts n false in
      (t ≡ (if ltb d.ts_guard.refusals 3 then follow_on d n else now_ts))
      × (d'.ts_guard.refusals ≡ (if ltb d.ts_guard.refusals 3 then d.ts_guard.refusals + 1 else 0))
      × (d'.ticks_per_sample ≡ d.ticks_per_sample)
unfolding choose_burst_ts refuse_reading chip_ts_guard_refused chip_ts_guard_accepted
    chip_ts_guard_next
choose_burst_ts_bad d now_ts n h bad = (ground arith, ground arith, ground arith)

newest_word :
    (d : Driver) (now_ts n : ℕ) (b : Bool)
    → now_ts < 2 ^ 32
    → (if b then follow_on d n else now_ts) < 2 ^ 32
newest_word d now_ts n true h = omega arith
newest_word d now_ts n false h = h

-- For a burst that the fallback stamps, with no overflow and a 32-bit reading that fails the forward
-- or the backward test: after fewer than three refusals in a row the reading is refused, which is
-- counted, and the newest sample is stamped so that the burst follows the last stamp without a gap;
-- after three, the newest sample is stamped with the reading itself, and the count starts again. The
-- guard notes the newest stamp either way.
pub reseed :
    (d : Driver) (fts : StFifoTs) (x : ImuSample) (xs : List ImuSample) (now_ts : ℕ)
    → d.ts_guard.refusals ≤ 3
    → now_ts < 2 ^ 32
    → FailsTest d now_ts (length (x ∷ xs))
    → let (d', stamped) = stamp_fallback d fts (x ∷ xs) now_ts false in
      let refuse = ltb d.ts_guard.refusals 3 in
      (last_ts stamped ≡ (if refuse then follow_on d (length (x ∷ xs)) else now_ts))
      × (d'.ts_guard.refusals ≡ (if refuse then d.ts_guard.refusals + 1 else 0))
      × (d'.ts_guard.last ≡ last_ts stamped)
unfolding stamp_fallback note_newest chip_ts_guard_note
reseed d fts x xs now_ts h hn bad =
    let n = length (x ∷ xs) in
    let c = choose_burst_ts d now_ts n false in
    let (newest, count, same) = choose_burst_ts_bad d now_ts n h bad in
    let word : c.1 < 2 ^ 32 =
      subst (λ t. t < 2 ^ 32) (sym newest)
        (newest_word d now_ts n (ltb d.ts_guard.refusals 3) hn) in
    (
      last-stamp_back c.1 c.0.ticks_per_sample x xs word ∙ newest,
      uncounted fts.have_word c.0 ∙ count,
      refl,
    )
  where
    uncounted :
        (b : Bool) (d : Driver)
        → (if b then record d { rejects = count_event d.rejects } else d).ts_guard.refusals
          ≡ d.ts_guard.refusals
    uncounted true d = refl
    uncounted false d = refl
