-- ===== src/Proto.antt =====
-- libs/rust-libs/auth-scope-proto: capability structures, wire types and the frame codec.
pub mod Caps
pub mod Wire
pub mod Json
pub mod Codec
