-- ===== src/Api.antt =====
-- include/bsomeip/api: messages and the application.
pub mod Message
pub mod Application
pub mod Rpc
pub mod Skeleton
pub mod Proxy
