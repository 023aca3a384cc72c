-- ===== src/Lib.antt =====
-- imud, a daemon that reads an inertial sensor, fuses its samples and publishes the result. This
-- library models the parts of it that handle bytes, buffers, times and connections, and proves
-- them correct.
--
-- The parts and where they are:
--   Prelude   shared names, tests, lists and the laws of the bit operations.
--   Types     include/types.h: samples and the fused state. Floats are 32-bit patterns throughout.
--   Wire      include/wire.h and include/crc32.h: little-endian accessors and CRC32. A pointer into
--             a buffer is the list of the bytes from there on.
--   Ring      src/ring.c: the two sample rings between the reader threads and the fusion thread.
--             Each call holds the ring's mutex and is one step; what other threads do during the
--             waits of imu_ring_pop is a script, one entry for a wait.
--   ChipTs    src/drivers/chip_ts.h, src/drivers/st_fifo_ts.h and step 3 of ism_read in
--             src/drivers/ism330dhcx.c: the timestamps of a burst of samples. 32-bit wrap-around
--             is written out.
--   Packet    src/packet.c: the 288-byte packet that the daemon sends.
--   Client    lib/imud_client.h and lib/libimud.c: what a client does with the bytes. The socket
--             is a script of what poll and read find, and the bytes that are pending.
--   Capture   src/capture.c: the .imucap file of raw samples, its writer and its reader, and the tap
--             ring in front of the writer. A file being written is the bytes it took and the room it
--             has left; one being read is the bytes that are left of it.
--   Config    src/config.c and include/config.h: the configuration file, its defaults and its reload.
--             The struct is a function from the fields of each C type; the keys of a section are
--             a table of the macros that take their values.
--   NetServ   src/netserv.c: the TCP server with its slow-client policy.
--   Bridge    src/bridge.c: the emit timing, the start-up and the write loop of the bridges.
--   PromHttp  src/prom_http.c: the scrape connection of the Prometheus endpoint.
--   Mavlink   src/mavlink_encode.c: the frames of the MAVLink bridge and their checksum.
--
-- How they interact: the driver stamps a burst (ChipTs) and pushes it into the ring (Ring); the
-- fusion thread pops it; packet_build and packet_encode (Packet, over Wire) make the bytes that
-- the client library validates, decodes and hands out (Client). The reader threads also push each
-- sample into the tap ring (Capture.Tap), from which the capture is written; a replay reads it
-- back. The daemon and the bridges start from config_load (Config): a rate that it accepts is what
-- bridge_period_ns divides by and bridge_advance steps by (Bridge). The outputs and the bridges
-- send through a server (NetServ), and the Prometheus bridge answers a scraper (PromHttp).
--
-- Bounds and fuel: most loops run over lists of samples, bytes or events. Fuel is kept by the
-- heading reduction of imud_true_heading, whose three rounds are what its comment gives as enough
-- for an angle below 1440; by the chunks of a capture's payload, for which its length is enough;
-- by the frames of a capture, for which one more round than there are bytes is enough; by the lines
-- of a configuration file, for which its length is enough; by the ticks of bridge_advance, for
-- which a round for each nanosecond up to now and one more are enough, since a tick is a
-- nanosecond or more; by the seconds it carries, for which the nanoseconds are enough; and by the
-- clients of a broadcast, one round for each. Integers
-- are naturals with their C width as a hypothesis, or reduced where C wraps.
--
-- Not modelled: floating-point filtering and calibration, device registers, the text outputs, the
-- loops of the threads and of the bridges, the rotation of capture files, the command line and
-- the process set-up, log lines. Float operations that a modelled function makes are a parameter
-- (Config.Values.Host), as are strtol and strtod; what a socket or a file answers is an argument. A C
-- `long` is taken as 64 bits.

pub mod Prelude
pub mod Types
pub mod Wire
pub mod Ring
pub mod ChipTs
pub mod Packet
pub mod Client
pub mod Capture
pub mod Config
pub mod NetServ
pub mod Bridge
pub mod PromHttp
pub mod Mavlink
