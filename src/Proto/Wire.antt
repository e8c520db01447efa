-- ===== src/Proto/Wire.antt =====
-- libs/rust-libs/auth-scope-proto/src/wire.rs
use vm_auth_scope.Base.{ℕ, Text}

abbrev pub protocol_version : ℕ
protocol_version = 1

pub record CertRequest : Type 0 where
  pub version : ℕ
  pub vm_name : Text
  pub entity : Text
  pub csr_pem : Text

-- `Ok { cert_pem, ca_cert_pem }` and `Error { message }`.
pub data CertResponse : Type 0 where
  issued : Text → Text → CertResponse
  error : Text → CertResponse
