-- ===== src/Capture/Tests.antt =====
-- Test runs of the capture file and the tap ring, and instances of their theorems.
use imud.Prelude.{
  ℕ, ◌+◌, ◌≡◌, refl, List, [], ◌∷◌, ◌++◌, some, map, take, drop, replicate, length, arith, ltb,
  if◌then◌else◌, ◌%◌, ◌^◌,
}
use imud.Types.{ImuSample, blank_imu, blank_mag}
use imud.Wire.{Bytes}
use imud.Capture.{CapHeader, frame_encode, imu_rec_encode}
use imud.Capture.Writer.{new_header, cap_writer_open, rec_trailer}
use imud.Capture.Reader.{
  InFile, CapReader, Next, at_end, err_crc, returns, one_record, cap_reader_next,
}
use imud.Capture.Entries.{
  Entry, imu_entry, mag_entry, mark_entry, entry_record, ended, entry_frame, entry_payload,
}
use imud.Capture.Progress.{cap_reader_next-ends}
use imud.Capture.Damage.{one_record-damaged}
use imud.Capture.Replay.{AllFit, all_bytes, whole_in, replay, replay-cut}
use imud.Capture.Session.{write_all, replayed, session, whole_file}
use imud.Capture.Tap.{
  CapRing, CapRingRec, tap_imu, cap_ring_len, ring_push, cap_ring_pop, queue, Sound,
  ring_push_refines, cap_ring_pop_refines,
}

abbrev a_sample : ImuSample
a_sample = record blank_imu { temp_c = 0x41C80000; chip_ts = 4000; seq = 7 }

abbrev some_entries : List Entry
some_entries = imu_entry a_sample 1000 ∷ mark_entry 5 2000 ∷ mag_entry blank_mag 3000 ∷ []

some_entries-AllFit : AllFit some_entries
some_entries-AllFit = (
  (
    record {
      accel = omega arith;
      gyro = omega arith;
      temp_c = omega arith;
      chip_ts = omega arith;
      seq = omega arith;
    },
    omega arith,
  ),
  (
    (omega arith, omega arith),
    ((record { field = omega arith; wall_ns = omega arith }, omega arith), omega arith),
  ),
)

-- The sample's record is 52 bytes and the mark's 20.
first_only : whole_in 62 some_entries ≡ 1
unfolding whole_in frame_encode imu_rec_encode rec_trailer
first_only = refl

abbrev driver_name : Bytes
driver_name = 0x73 ∷ 0x69 ∷ 0x6D ∷ []

abbrev old_header : CapHeader
old_header = new_header 1 1000 [] [] [] 0 0

session_example :
    replayed
      (write_all
        (cap_writer_open
          (some (record { written = []; room = 166 }))
          (new_header 833 833000 driver_name driver_name [] 10 20)).0
        some_entries).file
      old_header
      4
    ≡ (map entry_record (take (whole_in 62 some_entries) some_entries), some at_end)
session_example =
    session 833 833000 driver_name driver_name [] 10 20 (omega arith) (omega arith) (omega arith)
      (omega arith) 166 some_entries old_header (omega arith) some_entries-AllFit

abbrev cut_file : InFile
cut_file = whole_file (take 60 (all_bytes some_entries))

replay-cut_example :
    replay 4 old_header cut_file
    ≡ (map entry_record (take (whole_in 60 some_entries) some_entries), some (ended cut_file))
replay-cut_example = replay-cut some_entries 60 old_header cut_file some_entries-AllFit refl

abbrev tap : ℕ → CapRingRec
tap n = tap_imu n a_sample

-- A ring with no room left.
abbrev full_tap : CapRing
full_tap = record {
  buf = replicate 1024 (tap 0);
  head = 1020;
  tail = 1020;
  count = 1024;
  dropped = 3;
}

full_tap-Sound : Sound (tap 0) full_tap
full_tap-Sound = record {
  size = refl;
  tail_in = omega arith;
  count_in = omega arith;
  head_at = refl;
}

ring_push_refines_example :
    Sound (tap 0) (ring_push full_tap (tap 9)).0
    × ((queue (tap 0) (ring_push full_tap (tap 9)).0
          ≡ take cap_ring_len (queue (tap 0) full_tap ++ (tap 9 ∷ [])))
        × (((ring_push full_tap (tap 9)).1 + length (queue (tap 0) (ring_push full_tap (tap 9)).0)
              ≡ length (queue (tap 0) full_tap) + 1)
            × ((ring_push full_tap (tap 9)).0.dropped ≡ (
                if ltb (length (queue (tap 0) full_tap)) cap_ring_len
                then full_tap.dropped
                else (full_tap.dropped + 1) % 2 ^ 64))))
ring_push_refines_example = ring_push_refines (tap 0) full_tap (tap 9) full_tap-Sound

abbrev two_taps : CapRing
two_taps = record full_tap { head = 1022; count = 2 }

two_taps-Sound : Sound (tap 0) two_taps
two_taps-Sound = record {
  size = refl;
  tail_in = omega arith;
  count_in = omega arith;
  head_at = refl;
}

cap_ring_pop_refines_example :
    Sound (tap 0) (cap_ring_pop (tap 0) 3 two_taps).1
    × (((cap_ring_pop (tap 0) 3 two_taps).0 ≡ take 3 (queue (tap 0) two_taps))
        × (queue (tap 0) (cap_ring_pop (tap 0) 3 two_taps).1 ≡ drop 3 (queue (tap 0) two_taps)))
cap_ring_pop_refines_example = cap_ring_pop_refines (tap 0) 3 two_taps two_taps-Sound

-- A record of a type that the reader does not know, and its checksum.
abbrev unknown_record : Bytes
unknown_record = 9 ∷ 0x80 ∷ 6 ∷ 0 ∷ 0 ∷ 0 ∷ 0 ∷ 0 ∷ 0 ∷ 0 ∷ 0 ∷ 0 ∷ 1 ∷ 2 ∷ 0 ∷ 0 ∷ 0 ∷ 0 ∷ []

abbrev odd_reader : CapReader
odd_reader = record { file = some (whole_file unknown_record); hdr = old_header }

cap_reader_next-ends_example : (out : Next × CapReader) × (cap_reader_next odd_reader ≡ some out)
cap_reader_next-ends_example = cap_reader_next-ends odd_reader

-- A mark of 5 whose lowest byte reads 7.
abbrev mark_five : Entry
mark_five = mark_entry 5 2000

abbrev damaged_file : InFile
damaged_file = whole_file (
    frame_encode (entry_frame mark_five)
    ++ ((7 ∷ 0 ∷ 0 ∷ 0 ∷ [])
        ++ (rec_trailer (frame_encode (entry_frame mark_five)) (entry_payload mark_five) ++ [])))

one_record-damaged_example :
    one_record old_header damaged_file ≡ returns err_crc (record damaged_file { rest = [] })
one_record-damaged_example =
    one_record-damaged mark_five old_header damaged_file [] (0 ∷ 0 ∷ 0 ∷ []) [] 5 7
      (omega arith, omega arith) refl (omega arith) (omega arith) (omega arith) (omega arith)
      (omega arith) refl
