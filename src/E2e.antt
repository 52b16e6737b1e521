-- ===== src/E2e.antt =====
-- include/bsomeip/e2e: end-to-end protection.
pub mod Slices
pub mod Crc8
pub mod Crc32
pub mod Crc64
pub mod Result
pub mod Feed
pub mod Profile01
pub mod Profile02
pub mod Profile04
pub mod Profile07
pub mod Protector
