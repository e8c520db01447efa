-- ===== src/Server.antt =====
-- apps/rust-apps/auth-scope-server: the host daemon.
pub mod Config
pub mod Policy
pub mod Handler
pub mod Listener
pub mod Main
