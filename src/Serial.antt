-- ===== src/Serial.antt =====
-- firmware/Serial: packets in frames on the serial line.
pub mod Framing
mod Tests
