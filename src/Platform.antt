-- ===== src/Platform.antt =====
-- include/bsomeip/platform.
pub mod ByteOrder
