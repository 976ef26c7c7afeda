-- ===== src/Rtp.antt =====
-- RTP: packets, H.264 packetisation, the transport and its senders, and raw H.264 files.
pub mod Packet
pub mod H264
pub mod Transport
pub mod MediaSession
pub mod Sender
pub mod Interleaved
pub mod RawSource
mod Runs
