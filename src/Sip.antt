-- ===== src/Sip.antt =====
-- GB28181 signalling over SIP: src/gb28181/sip_message.cpp and src/gb28181/sip_agent.cpp.
pub mod Types
pub mod Message
pub mod Auth
pub mod Agent
mod Runs
