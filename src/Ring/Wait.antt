-- ===== src/Ring/Wait.antt =====
-- The two rings of the daemon at their lengths: 256 IMU samples behind a pop that waits, 32
-- magnetometer samples behind one that does not.
use imud.Prelude.{
  ◌+◌, ◌-◌, ◌≡◌, ◌≢◌, refl, ap, sym, ◌∙◌, Bool, true, false, List, [], ◌∷◌, ◌++◌, Option, none,
  some, arith, length, if◌then◌else◌, ==_iff, ne→==, ℕ_discrete, Bool-cases, inl, inr,
}
use imud.Types.{ImuSample, MagSample, blank_imu, blank_mag}
use imud.Ring.{
  ImuRing, MagRing, Waited, imu_ring_bits, mag_ring_bits, pop_slot, push_slots, imu_ring_init,
  imu_ring_push, imu_ring_pop, mag_ring_init, mag_ring_push, mag_ring_try_pop,
}
use imud.Ring.Refine.{
  IsValid, contents, offer, poll, push_slot-IsValid, push_slot_refines, pop_slot-IsValid,
  pop_slot_refines, fresh_ring-IsValid,
}
use imud.Ring.Window.{window}
use imud.Ring.Newest.{newest, push_slots-IsValid, push_slots-newest, push_slots-dropped}

abbrev pub imu_contents : ImuRing → List ImuSample
imu_contents = contents imu_ring_bits blank_imu

abbrev pub mag_contents : MagRing → List MagSample
mag_contents = contents mag_ring_bits blank_mag

-- The reference for a pop that waits, over the list of what the ring holds: it answers from what
-- is there, gives up when stopped or when the deadline passes, and keeps what arrives meanwhile.
unfoldable pub await : List ImuSample → Bool → List Waited → List ImuSample × Option ImuSample
await (x ∷ q) stop ws = (q, some x)
await [] true ws = ([], none)
await [] false [] = ([], none)
await [] false (w ∷ ws) =
    let rest = await (newest 256 w.pushed) w.stop ws in
    if w.timed_out then (newest 256 w.pushed, none) else rest

empty_contents : (r : ImuRing) → r.count ≡ 0 → imu_contents r ≡ []
empty_contents r e = ap (λ n. window blank_imu 256 r.buf r.tail n) e

pop_ready :
    (r : ImuRing) (stop : Bool) (ws : List Waited)
    → r.count ≢ 0
    → let (r', x) = pop_slot imu_ring_bits blank_imu r in imu_ring_pop r stop ws ≡ (r', some x)
unfolding imu_ring_pop
pop_ready r stop [] ne = ground arith
pop_ready r stop (w ∷ ws) ne = ground arith

pop_stopped : (r : ImuRing) (ws : List Waited) → r.count ≡ 0 → imu_ring_pop r true ws ≡ (r, none)
unfolding imu_ring_pop
pop_stopped r [] e = ground arith
pop_stopped r (w ∷ ws) e = ground arith

pop_deadline : (r : ImuRing) (stop : Bool) → r.count ≡ 0 → imu_ring_pop r stop [] ≡ (r, none)
unfolding imu_ring_pop
pop_deadline r stop e = ground arith

pop_waits :
    (r : ImuRing) (w : Waited) (ws : List Waited)
    → r.count ≡ 0
    → let r' = (push_slots imu_ring_bits r w.pushed 0).0 in
      imu_ring_pop r false (w ∷ ws)
      ≡ (if w.timed_out then (r', none) else imu_ring_pop r' w.stop ws)
unfolding imu_ring_pop
pop_waits r w ws e = rw ((==_iff r.count 0).1 e)

-- A push of a burst of IMU samples keeps the ring well formed, leaves it holding the newest 256 of
-- the old samples and the burst in order, and returns how many were lost.
pub imu_ring_push_refines :
    (r : ImuRing) (s : List ImuSample)
    → IsValid imu_ring_bits r
    → let (r', dropped, signalled) = imu_ring_push r s in
      IsValid imu_ring_bits r'
      × (imu_contents r' ≡ newest 256 (imu_contents r ++ s))
      × (dropped ≡ r.count + length s - 256)
unfolding imu_ring_push
imu_ring_push_refines r s v = (
  push_slots-IsValid imu_ring_bits (omega arith) blank_imu s r 0 v,
  push_slots-newest imu_ring_bits (omega arith) blank_imu s r 0 v,
  omega (arith, push_slots-dropped imu_ring_bits (omega arith) blank_imu s r 0 v),
)

abbrev PopRefines : ImuRing → Bool → List Waited → Type 0
PopRefines r stop ws =
    let (r', x) = imu_ring_pop r stop ws in
    IsValid imu_ring_bits r' × ((imu_contents r', x) ≡ await (imu_contents r) stop ws)

refines_ready :
    (r : ImuRing) (stop : Bool) (ws : List Waited)
    → IsValid imu_ring_bits r
    → r.count ≢ 0
    → PopRefines r stop ws
unfolding await
refines_ready r stop ws v ne = rw (pop_ready r stop ws ne) (
  pop_slot-IsValid imu_ring_bits (omega arith) blank_imu r v ne,
  rw (pop_slot_refines imu_ring_bits (omega arith) blank_imu r v ne),
)

held_after :
    (r : ImuRing) (s : List ImuSample)
    → IsValid imu_ring_bits r
    → r.count ≡ 0
    → imu_contents (push_slots imu_ring_bits r s 0).0 ≡ newest 256 s
held_after r s v e =
    push_slots-newest imu_ring_bits (omega arith) blank_imu s r 0 v
    ∙ ap (λ q. newest 256 (q ++ s)) (empty_contents r e)

refines_waits :
    (r : ImuRing) (w : Waited) (ws : List Waited)
    → IsValid imu_ring_bits r
    → r.count ≡ 0
    → PopRefines (push_slots imu_ring_bits r w.pushed 0).0 w.stop ws
    → PopRefines r false (w ∷ ws)
unfolding await
refines_waits r w ws v e later =
    rw (pop_waits r w ws e, empty_contents r e)
      (elim (Bool-cases w.timed_out) [
        | inl t ↦ rw t (
          push_slots-IsValid imu_ring_bits (omega arith) blank_imu w.pushed r 0 v,
          ap (λ q. (q, none)) (held_after r w.pushed v e),
        )
        | inr f ↦ rw f (later.0, later.1 ∙ ap (λ q. await q w.stop ws) (held_after r w.pushed v e))
      ])

await-stopped :
    (r : ImuRing) (ws : List Waited) → r.count ≡ 0 → await (imu_contents r) true ws ≡ ([], none)
unfolding await
await-stopped r ws e = rw (empty_contents r e)

await-deadline :
    (r : ImuRing) (stop : Bool) → r.count ≡ 0 → await (imu_contents r) stop [] ≡ ([], none)
unfolding await
await-deadline r true e = rw (empty_contents r e)
await-deadline r false e = rw (empty_contents r e)

refines_stopped :
    (r : ImuRing) (ws : List Waited) → IsValid imu_ring_bits r → r.count ≡ 0 → PopRefines r true ws
unfolding await
refines_stopped r ws v e =
    rw (pop_stopped r ws e)
      (v, ap (λ q. (q, none)) (empty_contents r e) ∙ sym (await-stopped r ws e))

refines_deadline :
    (r : ImuRing) (stop : Bool) → IsValid imu_ring_bits r → r.count ≡ 0 → PopRefines r stop []
unfolding await
refines_deadline r stop v e =
    rw (pop_deadline r stop e)
      (v, ap (λ q. (q, none)) (empty_contents r e) ∙ sym (await-deadline r stop e))

-- The blocking pop, for every course of the waits, keeps the ring well formed and is the
-- reference's pop on what the ring holds.
pub imu_ring_pop_refines :
    (ws : List Waited) (r : ImuRing) (stop : Bool)
    → IsValid imu_ring_bits r
    → let (r', x) = imu_ring_pop r stop ws in
      IsValid imu_ring_bits r' × ((imu_contents r', x) ≡ await (imu_contents r) stop ws)
imu_ring_pop_refines [] r stop v = elim (ℕ_discrete r.count 0) [
  | yes e ↦ refines_deadline r stop v e
  | no ne ↦ refines_ready r stop [] v ne
]
imu_ring_pop_refines (w ∷ ws) r true v = elim (ℕ_discrete r.count 0) [
  | yes e ↦ refines_stopped r (w ∷ ws) v e
  | no ne ↦ refines_ready r true (w ∷ ws) v ne
]
imu_ring_pop_refines (w ∷ ws) r false v = elim (ℕ_discrete r.count 0) [
  | yes e ↦ refines_waits r w ws v e (
      imu_ring_pop_refines ws (push_slots imu_ring_bits r w.pushed 0).0 w.stop
        (push_slots-IsValid imu_ring_bits (omega arith) blank_imu w.pushed r 0 v))
  | no ne ↦ refines_ready r false (w ∷ ws) v ne
]

-- The mag ring's push keeps it well formed and is the reference's offer at 32 entries.
pub mag_ring_push_refines :
    (r : MagRing) (s : MagSample)
    → IsValid mag_ring_bits r
    → IsValid mag_ring_bits (mag_ring_push r s)
      × (mag_contents (mag_ring_push r s) ≡ (offer 32 (mag_contents r) s).0)
unfolding mag_ring_push
mag_ring_push_refines r s v = (
  push_slot-IsValid mag_ring_bits (omega arith) blank_mag r s v,
  ap (λ p. p.0) (push_slot_refines mag_ring_bits (omega arith) blank_mag r s v),
)

-- The mag ring's pop keeps it well formed and is the reference's poll: the oldest entry, or none
-- at an empty ring.
pub mag_ring_try_pop_refines :
    (r : MagRing)
    → IsValid mag_ring_bits r
    → let (r', x) = mag_ring_try_pop r in
      IsValid mag_ring_bits r' × ((mag_contents r', x) ≡ poll (mag_contents r))
unfolding mag_ring_try_pop poll
mag_ring_try_pop_refines r v = elim (ℕ_discrete r.count 0) [
  | yes e ↦ rw ((==_iff r.count 0).1 e) (v, rw (ap (λ n. window blank_mag 32 r.buf r.tail n) e))
  | no ne ↦ rw (ne→== r.count 0 ne) (
    pop_slot-IsValid mag_ring_bits (omega arith) blank_mag r v ne,
    rw (pop_slot_refines mag_ring_bits (omega arith) blank_mag r v ne),
  )
]

-- Both rings start well formed and empty.
pub init-IsValid :
    IsValid imu_ring_bits imu_ring_init
    × (imu_contents imu_ring_init ≡ [])
    × IsValid mag_ring_bits mag_ring_init
    × (mag_contents mag_ring_init ≡ [])
unfolding imu_ring_init mag_ring_init
init-IsValid = (
  fresh_ring-IsValid imu_ring_bits (omega arith) blank_imu,
  refl,
  fresh_ring-IsValid mag_ring_bits (omega arith) blank_mag,
  refl,
)
