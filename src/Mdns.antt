-- ===== src/Mdns.antt =====
-- The mDNS message codec of src/mdns/dns_message.cpp.
pub mod Types
pub mod Name
pub mod Message
mod Runs
