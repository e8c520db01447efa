-- ===== src/Ca.antt =====
-- libs/rust-libs/auth-scope-ca: the certificate authority engine.
pub mod Error
pub mod Der
pub mod Tokens
pub mod Jwt
pub mod Pki
pub mod Authority
pub mod Signing
pub mod Storage
