-- ===== src/Ca/Signing.antt =====
-- `sign_csr` of libs/rust-libs/auth-scope-ca/src/signing.rs
pub mod Issued
pub mod Certified
use vm_auth_scope.Base.{
  ℕ, ◌+◌, ◌*◌, ◌/◌, ◌%◌, ◌^◌, Bool, false, List, [], ◌∷◌, ◌++◌, Bytes, Text, codes,
}
use Prim.Native.Nat.{max}
use vm_auth_scope.Base.Result.{Result, ok, ◌>>=◌, map_err, expect}
use vm_auth_scope.Ca.Authority.{CertificateAuthority, key_pair, rcgen_cert}
use vm_auth_scope.Ca.Der.{encode_der_octet_string}
use vm_auth_scope.Ca.Error.{CaError, jwt_error, rcgen_error}
use vm_auth_scope.Ca.Jwt.{cap_extension_oid, CapJwtSigner, from_pkcs8_der, sign}
use vm_auth_scope.Ca.Pki.{
  Pki, Params, CsrParams, CustomExtension, KeyUsage, digital_signature, content_commitment,
}
use vm_auth_scope.Ca.Tokens.{Tokens}
use vm_auth_scope.Proto.Caps.{Capability, CapClaim}

pub record SigningRequest : Type 0 where
  pub csr_pem : Text
  pub entity : Text
  pub vm_name : Text
  pub cid : ℕ
  pub claims : List Capability
  pub validity_days : ℕ

-- What the system gives to one signing: the seconds since the epoch, or the error of a clock before
-- it, and the draws of the random generator.
pub record Ambient (K : Tokens) (P : Pki) : Type 0 where
  pub clock : Result Text ℕ
  pub jwt_draw : K.Draw
  pub ca_draw : P.Draw
  pub leaf_draw : P.Draw

-- `now + validity_secs` on 64-bit patterns, as the release build computes it.
abbrev pub expiry : ℕ → ℕ → ℕ
expiry now validity_days = (now + validity_days * 86400) % 2 ^ 64

unfoldable pub claim_of : SigningRequest → ℕ → CapClaim
claim_of req now = record {
  iss = codes "auth-scope-ca";
  sub = req.entity;
  vm = req.vm_name;
  cid = req.cid;
  iat = now;
  exp = expiry now req.validity_days;
  caps = req.claims;
}

abbrev pub cap_extension : Text → CustomExtension
cap_extension jwt = record {
  oid = cap_extension_oid;
  content = encode_der_octet_string jwt;
  critical = false;
}

abbrev pub end_year : ℕ → ℕ
end_year validity_days = 2024 + max (validity_days / 365) 1

module _ (K : Tokens) (P : Pki) where
  open P use {Date, Other, PublicKey, date_time_ymd}

  -- The request's parameters with the leaf's usages, the capability extension and the validity.
  unfoldable pub leaf_params :
      CsrParams Date Other PublicKey → Text → Date → Date → CsrParams Date Other PublicKey
  leaf_params csr jwt not_before not_after = record csr {
    params = record (csr.params) {
      key_usages = digital_signature ∷ content_commitment ∷ [];
      custom_extensions = csr.params.custom_extensions ++ cap_extension jwt ∷ [];
      not_before = not_before;
      not_after = not_after;
    };
  }

  unfoldable pub sign_csr :
      Ambient K P → CertificateAuthority → SigningRequest → Result CaError Text
  sign_csr ambient ca req = do
    now ← map_err jwt_error ambient.clock
    signer ← from_pkcs8_der K ca.key_der
    jwt ← sign K signer ambient.jwt_draw (claim_of req now)
    csr ← map_err rcgen_error (P.csr_from_pem req.csr_pem)
    not_before ← expect (date_time_ymd 2024 1 1)
    not_after ← expect (date_time_ymd (end_year req.validity_days) 1 1)
    ca_cert ← rcgen_cert P ca ambient.ca_draw
    ca_kp ← key_pair P ca
    leaf ←
        map_err rcgen_error
          (P.signed_by (leaf_params csr jwt not_before not_after) ca_cert ca_kp ambient.leaf_draw)
    ok (P.cert_pem leaf)
