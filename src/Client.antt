-- ===== src/Client.antt =====
-- The client side of the packet: lib/imud_client.h and lib/libimud.c.
pub mod Decode
pub mod Data
pub mod Handle
pub mod Frames
pub mod Stream
pub mod Delivery
pub mod Agree
mod Tests
