-- ===== src/Proxy.antt =====
-- The proxy's registration with the Windows session.
pub mod Settings
mod Tests
pub mod Session
pub mod Restore
pub mod Registration
pub mod Undo
