-- ===== src/Ca/Storage.antt =====
-- `load` and `init` of `CertificateAuthority` in libs/rust-libs/auth-scope-ca/src/ca.rs.
pub mod Reload
use vm_auth_scope.Base.{
  ℕ, Bool, true, not, ◌&&◌, Option, none, some, List, [], ◌∷◌, Bytes, Text, codes, if◌then◌else◌,
}
use vm_auth_scope.Base.Result.{Result, ok, err, map_err, ok_or, expect}
use vm_auth_scope.Ca.Authority.{CertificateAuthority}
use vm_auth_scope.Ca.Error.{
  CaError, cert_not_found, key_not_found, key_parse_failed, cert_parse_failed, rcgen_error,
}
use vm_auth_scope.Ca.Error as CaError
use vm_auth_scope.Ca.Pki.{
  Pki, Params, common_name, organization_name, key_cert_sign, crl_sign, digital_signature,
}
use vm_auth_scope.Io.{IoError, Run, ◌>>=◌, ◌>>◌, lift, wrap}
use vm_auth_scope.Io.Files.{Files}

-- The first block that `rustls_pemfile::certs` finds, if it can be read.
abbrev pub first_ok : List (Result IoError Bytes) → Option Bytes
first_ok [] = none
first_ok (ok der ∷ _) = some der
first_ok (_ ∷ _) = none

-- The distinguished name, the constraints and the usages of the authority, and its ten years.
abbrev pub ca_params : {Date Other : Type 0} → Params Date Other → Date → Date → Params Date Other
ca_params defaults not_before not_after = record defaults {
  distinguished_name =
      (common_name, codes "auth-scope-ca") ∷ (organization_name, codes "auth-scope") ∷ [];
  is_ca = true;
  key_usages = key_cert_sign ∷ crl_sign ∷ digital_signature ∷ [];
  not_before = not_before;
  not_after = not_after;
}

module _ (F : Files) (P : Pki) (certs : Text → List (Result IoError Bytes)) where
  open F use {Disk, parent, exists, read_to_string, remove_file, create_dir_all, write, set_mode}
  open P use {KeyPair, Certificate, Draw}

  abbrev pub pem_to_der : Text → Option Bytes
  pem_to_der pem = first_ok (certs pem)

  unfoldable pub load : Text → Text → Run Disk CaError CertificateAuthority
  load cert_path key_path = do
    cert_pem ← wrap (cert_not_found cert_path) (read_to_string cert_path)
    key_pem ← wrap (key_not_found key_path) (read_to_string key_path)
    key_pair ← lift (map_err (λ e. key_parse_failed e.shown) (P.key_from_pem key_pem))
    cert_der ←
        lift (ok_or (pem_to_der cert_pem) (cert_parse_failed (codes "no CERTIFICATE block found")))
    lift (
        ok (record {
          key_pem = key_pem;
          cert_pem = cert_pem;
          cert_der = cert_der;
          key_der = P.serialize_der key_pair;
        }))

  -- `if path.exists() { let _ = fs::remove_file(path); }`
  unfoldable pub remove_if_there : Text → Disk → Disk
  remove_if_there path s = if exists path s then (remove_file path s).1 else s

  unfoldable pub create_parent : Option Text → Run Disk CaError (Unit {0})
  create_parent none = lift (ok tt)
  create_parent (some dir) = wrap CaError.io (create_dir_all dir)

  unfoldable pub set_mode_600 : Text → Run Disk CaError (Unit {0})
  set_mode_600 path = wrap CaError.io (set_mode path 0o600)

  -- The two files, with their directories.
  unfoldable pub save : Text → Text → CertificateAuthority → Run Disk CaError CertificateAuthority
  save cert_path key_path ca = do
    create_parent (parent cert_path)
    create_parent (parent key_path)
    wrap CaError.io (write cert_path ca.cert_pem)
    wrap CaError.io (write key_path ca.key_pem)
    set_mode_600 key_path
    lift (ok ca)

  -- The authority of a key and of its certificate.
  abbrev pub authority_of : KeyPair → Certificate → CertificateAuthority
  authority_of key_pair cert = record {
    key_pem = P.serialize_pem key_pair;
    cert_pem = P.cert_pem cert;
    cert_der = P.cert_der cert;
    key_der = P.serialize_der key_pair;
  }

  -- The new key and the self-signed certificate, for the draws of the two calls.
  unfoldable pub generate : Text → Text → Draw → Draw → Run Disk CaError CertificateAuthority
  generate cert_path key_path key_draw cert_draw = do
    key_pair ← lift (map_err rcgen_error (P.generate_for key_draw))
    not_before ← lift (expect (P.date_time_ymd 2024 1 1))
    not_after ← lift (expect (P.date_time_ymd 2034 1 1))
    cert ← lift (
        map_err rcgen_error
          (P.self_signed (ca_params P.default_params not_before not_after) key_pair cert_draw))
    save cert_path key_path (authority_of key_pair cert)

  unfoldable pub init : Text → Text → Bool → Draw → Draw → Run Disk CaError CertificateAuthority
  init cert_path key_path idempotent key_draw cert_draw s =
      if idempotent && (exists cert_path s && exists key_path s)
      then load cert_path key_path s
      else generate cert_path key_path key_draw cert_draw
          (if not idempotent then remove_if_there key_path (remove_if_there cert_path s) else s)
