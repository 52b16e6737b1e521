-- ===== src/Wire.antt =====
-- include/bsomeip/wire: the SOME/IP message format.
pub mod Bytes
pub mod MessageType
pub mod Wildcards
pub mod HeaderView
pub mod Header
pub mod Tp
pub mod Primitive
pub mod Codec
