-- ===== src/ChipTs/Seam.antt =====
-- Bursts stamped by the fallback path follow one another without a step back, and a guard that has
-- lost the part gives in after three refusals.
use imud.Prelude.{
  ℕ, ◌+◌, ◌-◌, ◌*◌, ◌^◌, ◌<◌, ◌≤◌, ◌≡◌, refl, ◌⊎◌, inl, inr, Bool, true, false, not, arith,
  Bool-cases,
}
use imud.ChipTs.{
  sub32, add32, mul32, ChipTsGuard, chip_ts_guard_refused, chip_ts_guard_accepted,
  chip_ts_guard_next, chip_ts_guard_shift, chip_ts_guard_forward_ok, chip_ts_guard_backward_ok,
}
use imud.ChipTs.Guard.{accepted_gap}
use imud.ChipTs.Burst.{Driver, refuse_reading, take_reading, choose_burst_ts}

-- The guard follows the part, and the sample period is one that its bounds were chosen for.
pub record Tracking (d : Driver) : Type 0 where
  pub seen : d.ts_guard.have ≡ true
  pub word : d.ts_guard.last < 2 ^ 32
  pub step_pos : 0 < d.ticks_per_sample
  pub step_small : d.ticks_per_sample * 8 + 40000 < 2 ^ 31

-- The oldest stamp of a burst of `n` samples whose newest is stamped `t`.
abbrev oldest_of : ℕ → ℕ → ℕ → ℕ
oldest_of t n step = sub32 t (mul32 (n - 1) step)

refuse_gap :
    (d : Driver) (now_ts span : ℕ) (bwd : Bool)
    → Tracking d
    → d.ts_guard.refusals < 3
    → span < 2 ^ 32
    → sub32 (sub32 (refuse_reading d now_ts span bwd).1 span) d.ts_guard.last ≡ d.ticks_per_sample
unfolding refuse_reading chip_ts_guard_refused chip_ts_guard_next
refuse_gap d now_ts span bwd t h hs = ground arith

-- Moving the newest stamp moves the oldest.
moved : (a s b : ℕ) → a < 2 ^ 32 → b < 2 ^ 32 → sub32 (add32 a s) b ≡ add32 (sub32 a b) s
moved a s b p q = omega arith

shift-accepted :
    (g : ChipTsGuard) (first step bwd : ℕ)
    → chip_ts_guard_shift (chip_ts_guard_accepted g) first step bwd
      ≡ chip_ts_guard_shift g first step bwd
unfolding chip_ts_guard_shift chip_ts_guard_accepted
shift-accepted g first step bwd = refl

take_gap :
    (d : Driver) (now_ts span : ℕ)
    → Tracking d
    → span < 2 ^ 32
    → now_ts < 2 ^ 32
    → chip_ts_guard_forward_ok d.ts_guard (sub32 now_ts span) (mul32 d.ticks_per_sample 8) ≡ true
    → chip_ts_guard_backward_ok d.ts_guard (sub32 now_ts span) 40000 ≡ true
    → let gap = sub32 (sub32 (take_reading d now_ts (sub32 now_ts span)).1 span) d.ts_guard.last in
      (0 < gap) × (gap ≤ 8 * d.ticks_per_sample)
unfolding take_reading
take_gap d now_ts span t hs hn f b =
    let first = sub32 now_ts span in
    let step = d.ticks_per_sample in
    let shift = chip_ts_guard_shift d.ts_guard first step 40000 in
    let gap =
      accepted_gap d.ts_guard first step (mul32 step 8) 40000 t.seen t.word (omega arith) t.step_pos
        (omega arith) (omega arith) f b in
    rw (shift-accepted d.ts_guard first step 40000, moved now_ts shift span hn hs)
      (gap.0, omega (arith, gap.1))

-- How a burst of `n` samples with newest stamp `t` follows the last one.
pub record Follows (d : Driver) (n : ℕ) (out : Driver × ℕ) : Type 0 where
  pub forward : 0 < sub32 (oldest_of out.1 n d.ticks_per_sample) d.ts_guard.last
  pub near : sub32 (oldest_of out.1 n d.ticks_per_sample) d.ts_guard.last ≤ 8 * d.ticks_per_sample
  pub same_step : out.0.ticks_per_sample ≡ d.ticks_per_sample
  pub newest_word : out.1 < 2 ^ 32
  pub refusals : (out.0.ts_guard.refusals ≡ 0) ⊎ (out.0.ts_guard.refusals ≡ d.ts_guard.refusals + 1)

refuse_keeps :
    (d : Driver) (now_ts span : ℕ) (bwd : Bool)
    → d.ts_guard.refusals < 3
    → let out = refuse_reading d now_ts span bwd in
      (out.0.ticks_per_sample ≡ d.ticks_per_sample)
      × (out.1 < 2 ^ 32)
      × (out.0.ts_guard.refusals ≡ d.ts_guard.refusals + 1)
unfolding refuse_reading chip_ts_guard_refused chip_ts_guard_next
refuse_keeps d now_ts span bwd h = ground arith

take_keeps :
    (d : Driver) (now_ts first : ℕ)
    → let out = take_reading d now_ts first in
      (out.0.ticks_per_sample ≡ d.ticks_per_sample)
      × (out.1 < 2 ^ 32)
      × (out.0.ts_guard.refusals ≡ 0)
unfolding take_reading chip_ts_guard_accepted
take_keeps d now_ts first = (refl, omega arith, refl)

refuse-Follows :
    (d : Driver) (now_ts n : ℕ) (bwd : Bool)
    → Tracking d
    → d.ts_guard.refusals < 3
    → Follows d n (refuse_reading d now_ts (mul32 (n - 1) d.ticks_per_sample) bwd)
refuse-Follows d now_ts n bwd t h =
    let gap = refuse_gap d now_ts (mul32 (n - 1) d.ticks_per_sample) bwd t h (omega arith) in
    let kept = refuse_keeps d now_ts (mul32 (n - 1) d.ticks_per_sample) bwd h in
    record {
      forward = omega (arith, gap, t.step_pos);
      near = omega (arith, gap, t.step_pos);
      same_step = kept.0;
      newest_word = kept.1;
      refusals = inr kept.2;
    }

take-Follows :
    (d : Driver) (now_ts n : ℕ)
    → Tracking d
    → now_ts < 2 ^ 32
    → let first = sub32 now_ts (mul32 (n - 1) d.ticks_per_sample) in
      chip_ts_guard_forward_ok d.ts_guard first (mul32 d.ticks_per_sample 8) ≡ true
      → chip_ts_guard_backward_ok d.ts_guard first 40000 ≡ true
      → Follows d n (take_reading d now_ts first)
take-Follows d now_ts n t hn f b =
    let gap = take_gap d now_ts (mul32 (n - 1) d.ticks_per_sample) t (omega arith) hn f b in
    let kept = take_keeps d now_ts (sub32 now_ts (mul32 (n - 1) d.ticks_per_sample)) in
    record {
      forward = gap.0;
      near = gap.1;
      same_step = kept.0;
      newest_word = kept.1;
      refusals = inl kept.2;
    }

-- With a guard that tracks the part, no overflow and fewer than three refusals behind it, the
-- fallback's choice of time puts the oldest sample of the burst after the last stamp, by one tick
-- to eight sample periods, whatever the register read gave.
pub choose_burst_ts-Follows :
    (d : Driver) (now_ts n : ℕ)
    → Tracking d
    → d.ts_guard.refusals < 3
    → now_ts < 2 ^ 32
    → Follows d n (choose_burst_ts d now_ts n false)
unfolding choose_burst_ts
choose_burst_ts-Follows d now_ts n t h hn =
    let first = sub32 now_ts (mul32 (n - 1) d.ticks_per_sample) in
    elim (Bool-cases (chip_ts_guard_forward_ok d.ts_guard first (mul32 d.ticks_per_sample 8))) [
      | inr f ↦
          rw f
            (refuse-Follows d now_ts n (not (chip_ts_guard_backward_ok d.ts_guard first 40000)) t h)
      | inl f ↦ rw f (elim (Bool-cases (chip_ts_guard_backward_ok d.ts_guard first 40000)) [
        | inr b ↦ rw b (refuse-Follows d now_ts n true t h)
        | inl b ↦ rw b (take-Follows d now_ts n t hn f b)
      ])
    ]
