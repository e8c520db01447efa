-- ===== src/Agent.antt =====
-- apps/rust-apps/auth-scope-agent: the guest's agent.
pub mod Config
pub mod Csr
pub mod Store
pub mod Client
pub mod Dial
pub mod Loop
pub mod Main
