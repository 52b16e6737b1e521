-- ===== src/Tests.antt =====
-- The theorems at work on concrete inputs.
pub mod Wire
pub mod E2e
pub mod Security
pub mod Route
pub mod Io
pub mod Api
pub mod Sd
pub mod SdMessage
pub mod Codec
pub mod Comm
pub mod Compat
pub mod Rpc
