-- ===== src/Ca/Authority.antt =====
-- `CertificateAuthority` of libs/rust-libs/auth-scope-ca/src/ca.rs, as far as signing needs it.
use vm_auth_scope.Base.{Bytes, Text}
use vm_auth_scope.Base.Result.{Result, ◌>>=◌, map_err}
use vm_auth_scope.Ca.Error.{CaError, key_parse_failed, cert_parse_failed, rcgen_error}
use vm_auth_scope.Ca.Pki.{Pki}

pub record CertificateAuthority : Type 0 where
  pub key_pem : Text
  pub cert_pem : Text
  pub cert_der : Bytes
  pub key_der : Bytes

module _ (P : Pki) where
  open P use {KeyPair, Certificate, Draw}

  unfoldable pub key_pair : CertificateAuthority → Result CaError KeyPair
  key_pair ca = map_err (λ e. key_parse_failed e.shown) (P.key_from_pem ca.key_pem)

  unfoldable pub rcgen_cert : CertificateAuthority → Draw → Result CaError Certificate
  rcgen_cert ca draw = do
    kp ← key_pair ca
    params ← map_err (λ e. cert_parse_failed e.shown) (P.from_ca_cert_pem ca.cert_pem)
    map_err rcgen_error (P.self_signed params kp draw)
