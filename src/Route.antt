-- ===== src/Route.antt =====
-- include/bsomeip/route: the service registry, the dispatcher and the manager that joins them.
pub mod Registry
pub mod Dispatcher
pub mod Manager
