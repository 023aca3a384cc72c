-- ===== src/Ring/Tests.antt =====
-- Test runs of the rings, and instances of their theorems.
use imud.Prelude.{ℕ, ◌+◌, ◌-◌, ◌≡◌, refl, false, [], ◌∷◌, ◌++◌, some}
use imud.Types.{ImuSample, MagSample, blank_imu, blank_mag}
use imud.Ring.{
  ImuRing, Waited, imu_ring_bits, mag_ring_bits, push_slot, push_slots, pop_slot, next_index,
  imu_ring_init, mag_ring_init, imu_ring_push, imu_ring_pop, mag_ring_push, mag_ring_try_pop,
}
use imud.Ring.Refine.{IsValid, offer, poll}
use imud.Ring.Newest.{newest}
use imud.Ring.Wait.{
  imu_contents, mag_contents, await, init-IsValid, imu_ring_push_refines, imu_ring_pop_refines,
  mag_ring_push_refines, mag_ring_try_pop_refines,
}

abbrev sample : ℕ → ImuSample
sample n = record blank_imu { seq = n }

abbrev reading : ℕ → MagSample
reading n = record blank_mag { wall_ns = n }

abbrev three : ImuRing
three = (imu_ring_push imu_ring_init (sample 1 ∷ sample 2 ∷ sample 3 ∷ [])).0

three_pops_one : (imu_ring_pop three false []).1 ≡ some (sample 1)
unfolding imu_ring_pop imu_ring_push imu_ring_init push_slots push_slot pop_slot next_index
three_pops_one = refl

late_sample : Waited
late_sample = record { pushed = sample 4 ∷ []; stop = false; timed_out = false }

woken : (imu_ring_pop imu_ring_init false (late_sample ∷ [])).1 ≡ some (sample 4)
unfolding imu_ring_pop imu_ring_init push_slots push_slot pop_slot next_index late_sample
woken = refl

imu_ring_push_refines_example :
    let (r', dropped, signalled) = imu_ring_push imu_ring_init (sample 1 ∷ sample 2 ∷ []) in
    IsValid imu_ring_bits r'
    × (imu_contents r' ≡ newest 256 (imu_contents imu_ring_init ++ (sample 1 ∷ sample 2 ∷ [])))
    × (dropped ≡ imu_ring_init.count + 2 - 256)
imu_ring_push_refines_example =
    imu_ring_push_refines imu_ring_init (sample 1 ∷ sample 2 ∷ []) init-IsValid.0

imu_ring_pop_refines_example :
    let (r', x) = imu_ring_pop imu_ring_init false (late_sample ∷ []) in
    IsValid imu_ring_bits r'
    × ((imu_contents r', x) ≡ await (imu_contents imu_ring_init) false (late_sample ∷ []))
imu_ring_pop_refines_example =
    imu_ring_pop_refines (late_sample ∷ []) imu_ring_init false init-IsValid.0

mag_ring_push_refines_example :
    IsValid mag_ring_bits (mag_ring_push mag_ring_init (reading 5))
    × (mag_contents (mag_ring_push mag_ring_init (reading 5))
        ≡ (offer 32 (mag_contents mag_ring_init) (reading 5)).0)
mag_ring_push_refines_example = mag_ring_push_refines mag_ring_init (reading 5) init-IsValid.2

mag_ring_try_pop_refines_example :
    let (r', x) = mag_ring_try_pop (mag_ring_push mag_ring_init (reading 5)) in
    IsValid mag_ring_bits r'
    × ((mag_contents r', x) ≡ poll (mag_contents (mag_ring_push mag_ring_init (reading 5))))
mag_ring_try_pop_refines_example =
    mag_ring_try_pop_refines (mag_ring_push mag_ring_init (reading 5))
      mag_ring_push_refines_example.0
