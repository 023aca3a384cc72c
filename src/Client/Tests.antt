-- ===== src/Client/Tests.antt =====
-- Test runs of the client side, and instances of its theorems.
use imud.Prelude.{
  drop, ◌++◌, false, ◌≡◌, refl, true, false, [], ◌∷◌, some, arith, length, map, replicate,
  append-nil,
}
use imud.Types.{blank_vec}
use imud.Wire.{Bytes, wire_put_u32, crc32_ieee}
use imud.Packet.{Packet, blank_reserved, packet_body, packet_encode, imud_magic, imud_version}
use imud.Packet.RoundTrip.{Fits}
use imud.Packet.Read.{packet_decode}
use imud.Wire.Bytes.{AreBytes}
use imud.Client.Decode.{imud_packet_decode}
use imud.Client.Data.{FloatOps, fill_data}
use imud.Client.Handle.{Imud, stream, readable, timeout, packet, packet_ok, read_stream}
use imud.Client.Frames.{done, NextFrame}
use imud.Client.Stream.{unread, Accounts, read_stream-Accounts}
use imud.Client.Delivery.{read_stream-delivers}
use imud.Client.Agree.{daemon_to_client, one_byte-refused, imud_packet_decode-eq-packet_decode}

abbrev still : Packet
still = record {
  magic = imud_magic;
  version = imud_version;
  flags = 0;
  ts_wall_ns = 0;
  ts_tai_ns = 0;
  ts_chip_ticks = 0;
  anchor_gen = 0;
  accel_x = 0;
  accel_y = 0;
  accel_z = 0;
  accel_raw_x = 0;
  accel_raw_y = 0;
  accel_raw_z = 0;
  gyro_x = 0;
  gyro_y = 0;
  gyro_z = 0;
  gyro_raw_x = 0;
  gyro_raw_y = 0;
  gyro_raw_z = 0;
  mag_x = 0;
  mag_y = 0;
  mag_z = 0;
  mag_raw_x = 0;
  mag_raw_y = 0;
  mag_raw_z = 0;
  quat_w = 0;
  quat_x = 0;
  quat_y = 0;
  quat_z = 0;
  pitch = 0;
  roll = 0;
  yaw = 0;
  heading_deg = 0;
  rate_of_turn = 0;
  temp_c = 0;
  cov = record { r0 = blank_vec; r1 = blank_vec; r2 = blank_vec };
  imu_seq = 7;
  declination_deg = 0;
  heave_m = 0;
  gyro_bias_x = 0;
  gyro_bias_y = 0;
  gyro_bias_z = 0;
  gyro_bias_var_x = 0;
  gyro_bias_var_y = 0;
  gyro_bias_var_z = 0;
  heave_rate = 0;
  accel_quiescence = 0;
  wave_height_m = 0;
  wave_period_s = 0;
  roll_period_s = 0;
  roll_amplitude = 0;
  pitch_period_s = 0;
  pitch_amplitude = 0;
  mag_anomaly = 0;
  mag_residual = 0;
  innov_weight = 0;
  innov_reject = 0;
  nis_accel = 0;
  nis_mag = 0;
  flags_ext = 0;
  reserved = blank_reserved;
  crc32 = 0;
}

still-Fits : Fits still
still-Fits = omega arith

abbrev frame : Bytes
frame = (packet_encode still).0

-- Floats are not computed with here.
abbrev no_floats : FloatOps
no_floats = record {
  add = λ a b. a;
  sub = λ a b. a;
  gt = λ a b. true;
  lt = λ a b. true;
  ge = λ a b. false;
}

-- A handle that has read the first two bytes of a frame.
abbrev handle : Bytes → Imud
handle rx = record {
  kind = stream;
  fd = some 3;
  path = [];
  port = 0;
  group = [];
  rx = rx;
  wire = still;
  view = fill_data no_floats still;
  wire_version = 0;
  have = false;
}

daemon_to_client_example :
    (length frame ≡ 288)
    × (packet_ok frame 288 ≡ true)
    × (imud_packet_decode frame ≡ record still { crc32 = crc32_ieee (packet_body still) })
daemon_to_client_example = daemon_to_client still still-Fits refl refl

frame-NextFrame : NextFrame frame frame []
frame-NextFrame = record {
  skipped = rw (append-nil frame) (done frame);
  size = daemon_to_client_example.0;
  ok = daemon_to_client_example.1;
}

read_stream-delivers_example :
    let r = read_stream no_floats (handle []) (map readable (replicate 288 99)) frame in
    (r.outcome ≡ packet)
    × (r.handle.wire ≡ imud_packet_decode frame)
    × (unread r.handle r.pending ≡ [])
read_stream-delivers_example =
    read_stream-delivers no_floats frame [] (replicate 288 99) (handle []) frame (omega arith)
      (omega (arith, daemon_to_client_example.0)) frame-NextFrame

read_stream-Accounts_example :
    let r =
      read_stream no_floats (handle (0x44 ∷ 0x55 ∷ [])) (readable 5 ∷ timeout ∷ []) (0x4D ∷ []) in
    Accounts (0x44 ∷ 0x55 ∷ 0x4D ∷ []) r.outcome r.handle r.pending
read_stream-Accounts_example =
    read_stream-Accounts no_floats (readable 5 ∷ timeout ∷ []) (handle (0x44 ∷ 0x55 ∷ []))
      (0x4D ∷ []) (omega arith)

abbrev behind_first : Bytes
behind_first = drop 1 (packet_body still)

behind_first-AreBytes : AreBytes behind_first
unfolding packet_body
behind_first-AreBytes = omega arith

starts_with_d : packet_body still ≡ 0x44 ∷ behind_first
unfolding packet_body
starts_with_d = refl

one_byte-refused_example :
    packet_ok (([] ++ 0x45 ∷ behind_first) ++ wire_put_u32 (packet_encode still).1) 288 ≡ false
one_byte-refused_example =
    one_byte-refused still [] behind_first 0x44 0x45 still-Fits starts_with_d tt
      behind_first-AreBytes (omega arith) (omega arith) (omega arith)

imud_packet_decode-eq-packet_decode_example : imud_packet_decode frame ≡ packet_decode frame
imud_packet_decode-eq-packet_decode_example = imud_packet_decode-eq-packet_decode frame
