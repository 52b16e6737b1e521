-- ===== src/Io.antt =====
-- include/bsomeip/io: the parts that are no system calls.
pub mod Framer
pub mod BufferPool
