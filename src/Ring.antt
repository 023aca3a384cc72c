-- ===== src/Ring.antt =====
-- src/ring.c: the rings between the sensor readers and the fusion thread. The mutex makes each
-- call one step, so a call is a function from the ring to the ring. `imu_ring_t` and `mag_ring_t`
-- have the same fields, and the code keeps to each a length that is a power of two.
pub mod Window
pub mod Refine
pub mod Newest
pub mod Wait
mod Tests
use imud.Prelude.{
  ℕ, ◌+◌, ◌-◌, ◌^◌, Bool, true, false, not, ◌&&◌, List, [], ◌∷◌, Option, none, some, set, get_or,
  replicate, ltb, ◌==◌, if◌then◌else◌, bit_and,
}
use imud.Types.{ImuSample, MagSample, blank_imu, blank_mag}
use imud.Wire.{u32}

pub record Ring (A : Type 0) : Type 0 where
  pub buf : List A
  pub head : ℕ
  pub tail : ℕ
  pub count : ℕ

-- `IMU_RING_LEN` is 2 ^ 8 and `MAG_RING_LEN` is 2 ^ 5.
abbrev pub imu_ring_bits : ℕ
imu_ring_bits = 8

abbrev pub mag_ring_bits : ℕ
mag_ring_bits = 5

-- `(i + 1) & (LEN - 1)` on `unsigned`
unfoldable pub next_index : ℕ → ℕ → ℕ
next_index bits i = bit_and (u32 (i + 1)) (2 ^ bits - 1)

module _ {A : Type 0} where
  unfoldable pub fresh_ring : ℕ → A → Ring A
  fresh_ring bits blank = record { buf = replicate (2 ^ bits) blank; head = 0; tail = 0; count = 0 }

  -- The body of both pushes: on a full ring the oldest entry makes room, and is counted.
  unfoldable pub push_slot : ℕ → Ring A → A → Ring A × ℕ
  push_slot bits r x =
      if r.count == 2 ^ bits
      then (
        record r {
          tail = next_index bits r.tail;
          buf = set r.buf r.head x;
          head = next_index bits r.head;
        },
        1,
      )
      else (
        record r {
          count = u32 (r.count + 1);
          buf = set r.buf r.head x;
          head = next_index bits r.head;
        },
        0,
      )

  -- The body of both pops, at a ring that holds an entry.
  unfoldable pub pop_slot : ℕ → A → Ring A → Ring A × A
  pop_slot bits blank r =
      (record r { tail = next_index bits r.tail; count = r.count - 1 }, get_or r.buf r.tail blank)

  -- `for (i = 0; i < n; i++)` over the samples `s[0..n)`, with the drops so far.
  unfoldable pub push_slots : ℕ → Ring A → List A → ℕ → Ring A × ℕ
  push_slots bits r [] dropped = (r, dropped)
  push_slots bits r (x ∷ xs) dropped =
      let (r', d) = push_slot bits r x in push_slots bits r' xs (dropped + d)

abbrev pub ImuRing : Type 0
ImuRing = Ring ImuSample

abbrev pub MagRing : Type 0
MagRing = Ring MagSample

unfoldable pub imu_ring_init : ImuRing
unfolding fresh_ring
imu_ring_init = fresh_ring imu_ring_bits blank_imu

unfoldable pub mag_ring_init : MagRing
unfolding fresh_ring
mag_ring_init = fresh_ring mag_ring_bits blank_mag

-- The ring, the number of samples dropped, and whether the condition variable is signalled.
unfoldable pub imu_ring_push : ImuRing → List ImuSample → ImuRing × ℕ × Bool
imu_ring_push r s = let (r', dropped) = push_slots imu_ring_bits r s 0 in (r', dropped, signals s)
  where
    signals : List ImuSample → Bool
    signals [] = false
    signals (_ ∷ _) = true

-- What one call of `host_cond_timedwait` lets happen while the lock is free: other threads push,
-- or set the stop flag, and the call returns because it was woken or because the deadline passed.
pub record Waited : Type 0 where
  pub pushed : List ImuSample
  pub stop : Bool
  pub timed_out : Bool

-- The blocking pop. The list is the waits in order; the deadline is one instant for all of them,
-- so when the list is at its end the next wait is the one that times out. `none` is the result -1.
unfoldable pub imu_ring_pop : ImuRing → Bool → List Waited → ImuRing × Option ImuSample
imu_ring_pop r stop [] =
    if r.count == 0
    then (r, none)
    else let (r', s) = pop_slot imu_ring_bits blank_imu r in (r', some s)
imu_ring_pop r stop (w ∷ ws) =
    let r' = (push_slots imu_ring_bits r w.pushed 0).0 in
    let again = imu_ring_pop r' w.stop ws in
    if (r.count == 0) && not stop
    then if w.timed_out then (r', none) else again
    else if r.count == 0
    then (r, none)
    else let (r', s) = pop_slot imu_ring_bits blank_imu r in (r', some s)

unfoldable pub imu_ring_count : ImuRing → ℕ
imu_ring_count r = r.count

unfoldable pub mag_ring_push : MagRing → MagSample → MagRing
mag_ring_push r s = (push_slot mag_ring_bits r s).0

-- `none` is the result -1.
unfoldable pub mag_ring_try_pop : MagRing → MagRing × Option MagSample
mag_ring_try_pop r =
    if r.count == 0
    then (r, none)
    else let (r', s) = pop_slot mag_ring_bits blank_mag r in (r', some s)
