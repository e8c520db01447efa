-- ===== src/Evaluator/Certificate.antt =====
-- `Evaluator::from_cert_pem`
pub mod Vouched
pub mod Truncated
pub mod Exact
use vm_auth_scope.Base.{
  ℕ, Bool, true, false, Option, none, some, List, [], ◌∷◌, ◌++◌, Bytes, Text, codes, ◌==◌, text_eq,
  if◌then◌else◌,
}
use vm_auth_scope.Base.Utf8.{is_utf8}
use vm_auth_scope.Base.Result.{Result, ok, err, panic, ◌>>=◌, ◌>>◌, map_err, ok_or, expect}
use vm_auth_scope.Ca.Jwt.{cap_extension_oid, verify_cap_jwt}
use vm_auth_scope.Ca.Tokens.{Tokens}
use vm_auth_scope.Evaluator.Error.{
  EvalError, x509_parse, missing_capability_extension, jwt_verification,
}
use vm_auth_scope.Evaluator.Grants.{Evaluator}
use vm_auth_scope.Evaluator.OctetString.{unwrap_octet_string}
use vm_auth_scope.Evaluator.X509.{Extension, X509Certificate, X509}

-- The loop over the extensions: `iter()` of an identifier that does not fit 64 bits is unwrapped.
unfoldable pub find_capability : List Extension → Result EvalError (Option Bytes)
unfolding ◌>>=◌ expect
find_capability [] = ok none
find_capability (ext ∷ exts) =
    let rest = find_capability exts in
    do ext_oid ← expect ext.oid; if ext_oid == cap_extension_oid then ok (some ext.value) else rest

abbrev pub not_utf8 : EvalError
not_utf8 = x509_parse (codes "JWT extension is not valid UTF-8")

-- The steps behind the search: from the extension's value to the claim.
module _ (K : Tokens) where
  unfoldable pub read_capability : Bytes → Bytes → Result EvalError Evaluator
  read_capability jwt_bytes spki = do
    inner ← unwrap_octet_string jwt_bytes
    if is_utf8 inner then ok tt else err not_utf8
    claim ← map_err jwt_verification (verify_cap_jwt K inner spki)
    ok (record { claim = claim })

module _ (X : X509) where
  open X use {parse_x509_pem, parse_x509_certificate}

  -- A PEM text to a certificate, with the two messages of the caller.
  unfoldable pub parse_pem_certificate : Text → Text → Text → Result EvalError X509Certificate
  parse_pem_certificate pem_failed cert_failed pem = do
    contents ← map_err (λ e. x509_parse (pem_failed ++ e)) (parse_x509_pem pem)
    map_err (λ e. x509_parse (cert_failed ++ e)) (parse_x509_certificate contents)

module _ (X : X509) (K : Tokens) where
  unfoldable pub from_cert_pem : Text → Text → Result EvalError Evaluator
  from_cert_pem peer_cert_pem ca_cert_pem = do
    ca_cert ←
        parse_pem_certificate X (codes "CA PEM parse failed: ") (codes "CA cert parse failed: ")
          ca_cert_pem
    let spki = ca_cert.subject_public_key
    peer_cert ←
        parse_pem_certificate X (codes "Peer PEM parse failed: ") (codes "Peer cert parse failed: ")
          peer_cert_pem
    found ← find_capability peer_cert.extensions
    jwt_bytes ← ok_or found missing_capability_extension
    read_capability K jwt_bytes spki
