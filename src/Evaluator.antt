-- ===== src/Evaluator.antt =====
-- libs/rust-libs/auth-scope-evaluator/src/lib.rs: capabilities of a peer certificate.
pub mod Error
pub mod OctetString
pub mod Grants
pub mod X509
pub mod Certificate
pub mod EndToEnd
pub mod Driver
pub mod UnitTest
