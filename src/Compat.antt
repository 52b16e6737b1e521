-- ===== src/Compat.antt =====
-- include/bsomeip/compat/vsomeip.hpp: the interface of vsomeip over an application.
pub mod Message
pub mod Application
