-- ===== src/Security.antt =====
-- include/bsomeip/security: the access policy and the sender that enforces it.
pub mod Policy
pub mod Enforcer
