-- ===== src/Serial.antt =====
-- Framing on a serial line: src/serial/serial_protocol.cpp.
pub mod Protocol
mod Runs
