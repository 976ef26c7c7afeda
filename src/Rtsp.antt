-- ===== src/Rtsp.antt =====
-- RTSP requests and sessions, src/rtsp.
pub mod Types
pub mod Protocol
pub mod Session
mod Runs
