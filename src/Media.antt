-- ===== src/Media.antt =====
-- The media buffers and packets of src/media.
pub mod Buffer
pub mod Packet
mod Runs
