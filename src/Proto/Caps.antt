-- ===== src/Proto/Caps.antt =====
-- libs/rust-libs/auth-scope-proto/src/caps.rs
use vm_auth_scope.Base.{ℕ, List, Text}

pub record PathAccess : Type 0 where
  pub path : Text
  pub access : List Text

pub record Capability : Type 0 where
  pub target_vm : Text
  pub rpc_modules : List Text
  pub rpc_methods : List Text
  pub paths : List PathAccess

-- The times are `i64`, kept as their 64-bit patterns.
pub record CapClaim : Type 0 where
  pub iss : Text
  pub sub : Text
  pub vm : Text
  pub cid : ℕ
  pub iat : ℕ
  pub exp : ℕ
  pub caps : List Capability
