-- ===== src/Sd.antt =====
-- include/bsomeip/sd: service discovery.
pub mod Entry
pub mod Option
pub mod Discovery
pub mod Message
