-- ===== src/Ws.antt =====
-- The WebSocket server: include/server/ws/ and src/server/ws/ws_session.cpp.
pub mod Types
pub mod Frame
pub mod Session
mod Runs
