-- ===== src/Evaluator/Certificate/Vouched.antt =====
-- The steps of `from_cert_pem`.
use vm_auth_scope.Base.{◌≡◌, refl, ◌∙◌, ◌↔◌, true, some, Bytes, Text, arith}
use vm_auth_scope.Base.Utf8.{is_utf8}
use vm_auth_scope.Base.Result.{ok, ◌>>=◌, ok_or}
use vm_auth_scope.Base.Result.Laws.{>>=-eq-ok, map_err-eq-ok, >>=_of_ok, map_err_of_ok}
use vm_auth_scope.Ca.Jwt.{verify_cap_jwt}
use vm_auth_scope.Ca.Jwt.Accepts.{IsAccepted, verify_cap_jwt_iff}
use vm_auth_scope.Ca.Tokens.{Tokens}
use vm_auth_scope.Evaluator.Error.{missing_capability_extension}
use vm_auth_scope.Evaluator.Grants.{Evaluator}
use vm_auth_scope.Evaluator.OctetString.{unwrap_octet_string}
use vm_auth_scope.Evaluator.X509.{X509Certificate, X509}
use vm_auth_scope.Evaluator.Certificate.{
  find_capability, read_capability, parse_pem_certificate, from_cert_pem,
}
use vm_auth_scope.Proto.Caps.{CapClaim}

-- A PEM text holds a certificate.
pub record Holds (X : X509) (pem : Text) (cert : X509Certificate) : Type 0 where
  pub contents : Bytes
  pub pem_parsed : X.parse_x509_pem pem ≡ ok contents
  pub cert_parsed : X.parse_x509_certificate contents ≡ ok cert

-- The search finds a value that is unwrapped to a token, which is accepted under the key of the
-- authority's certificate.
pub record IsVouched (X : X509) (K : Tokens) (peer ca : Text) (claim : CapClaim) : Type 0 where
  pub ca_cert : X509Certificate
  pub peer_cert : X509Certificate
  pub value : Bytes
  pub jwt : Text
  pub ca_held : Holds X ca ca_cert
  pub peer_held : Holds X peer peer_cert
  pub found : find_capability peer_cert.extensions ≡ ok (some value)
  pub unwrapped : unwrap_octet_string value ≡ ok jwt
  pub utf8 : is_utf8 jwt ≡ true
  pub accepted : IsAccepted K jwt ca_cert.subject_public_key claim

module _ (X : X509) where
  parse_pem_certificate-Holds :
      (f g pem : Text) (cert : X509Certificate)
      → parse_pem_certificate X f g pem ≡ ok cert
      → Holds X pem cert
  unfolding parse_pem_certificate
  parse_pem_certificate-Holds f g pem cert h =
      let (contents, e, h') = >>=-eq-ok _ _ h in
      record {
        contents = contents;
        pem_parsed = map_err-eq-ok _ _ e;
        cert_parsed = map_err-eq-ok _ _ h';
      }

  parse_pem_certificate_of_Holds :
      (f g pem : Text) (cert : X509Certificate)
      → Holds X pem cert
      → parse_pem_certificate X f g pem ≡ ok cert
  unfolding parse_pem_certificate
  parse_pem_certificate_of_Holds f g pem cert h =
      >>=_of_ok _ _ (map_err_of_ok _ _ h.pem_parsed) ∙ map_err_of_ok _ _ h.cert_parsed

module _ (K : Tokens) where
  read_capability-eq-ok :
      (value spki : Bytes) (e : Evaluator)
      → read_capability K value spki ≡ ok e
      → (jwt : Text) × (unwrap_octet_string value ≡ ok jwt)
        × (is_utf8 jwt ≡ true)
        × (verify_cap_jwt K jwt spki ≡ ok e.claim)
  unfolding read_capability
  read_capability-eq-ok value spki e h =
      let (jwt, e₁, h₁) = >>=-eq-ok _ _ h in
      let (_, e₂, h₂) = >>=-eq-ok _ _ h₁ in
      let (claim, e₃, h₃) = >>=-eq-ok _ _ h₂ in
      (jwt, e₁, ground (arith, e₂), map_err-eq-ok _ _ e₃ ∙ ground (arith, h₃))

  pub read_capability_of :
      (value spki : Bytes) (jwt : Text) (claim : CapClaim)
      → unwrap_octet_string value ≡ ok jwt
      → is_utf8 jwt ≡ true
      → verify_cap_jwt K jwt spki ≡ ok claim
      → read_capability K value spki ≡ ok (record { claim = claim })
  unfolding read_capability
  read_capability_of value spki jwt claim u v a =
      >>=_of_ok _ _ u ∙ >>=_of_ok _ _ (rw v) ∙ >>=_of_ok _ _ (map_err_of_ok _ _ a)

module _ (X : X509) (K : Tokens) where
  -- With both certificates held, only the search and the extension's value are left.
  pub from_cert_pem_of_Holds :
      (peer ca : Text) (peer_cert ca_cert : X509Certificate)
      → Holds X peer peer_cert
      → Holds X ca ca_cert
      → from_cert_pem X K peer ca ≡ (
          find_capability peer_cert.extensions >>= λ found.
          ok_or found missing_capability_extension >>= λ value.
          read_capability K value ca_cert.subject_public_key)
  unfolding from_cert_pem
  from_cert_pem_of_Holds peer ca peer_cert ca_cert hp hc =
      >>=_of_ok _ _ (parse_pem_certificate_of_Holds X _ _ ca ca_cert hc)
      ∙ >>=_of_ok _ _ (parse_pem_certificate_of_Holds X _ _ peer peer_cert hp)

  -- A claim is evaluated exactly when every step up to it succeeds.
  pub from_cert_pem_iff :
      (peer ca : Text) (claim : CapClaim)
      → (from_cert_pem X K peer ca ≡ ok (record { claim = claim })) ↔ IsVouched X K peer ca claim
  unfolding from_cert_pem
  from_cert_pem_iff peer ca claim = (sound, complete)
    where
      sound :
          from_cert_pem X K peer ca ≡ ok (record { claim = claim }) → IsVouched X K peer ca claim
      sound h =
          let (ca_cert, e₁, h₁) = >>=-eq-ok _ _ h in
          let (peer_cert, e₂, h₂) = >>=-eq-ok _ _ h₁ in
          let (found, e₃, h₃) = >>=-eq-ok _ _ h₂ in
          let (value, e₄, h₄) = >>=-eq-ok _ _ h₃ in
          let (jwt, u, v, a) = read_capability-eq-ok K value ca_cert.subject_public_key _ h₄ in
          record {
            ca_cert = ca_cert;
            peer_cert = peer_cert;
            value = value;
            jwt = jwt;
            ca_held = parse_pem_certificate-Holds X _ _ ca ca_cert e₁;
            peer_held = parse_pem_certificate-Holds X _ _ peer peer_cert e₂;
            found = e₃ ∙ ground (arith, e₄);
            unwrapped = u;
            utf8 = v;
            accepted = (verify_cap_jwt_iff K ca_cert.subject_public_key claim jwt).0 a;
          }

      complete :
          IsVouched X K peer ca claim → from_cert_pem X K peer ca ≡ ok (record { claim = claim })
      complete v =
          from_cert_pem_of_Holds peer ca v.peer_cert v.ca_cert v.peer_held v.ca_held
          ∙ >>=_of_ok _ _ v.found
          ∙ >>=_of_ok _ _ refl
          ∙ read_capability_of K v.value v.ca_cert.subject_public_key v.jwt claim v.unwrapped v.utf8
              ((verify_cap_jwt_iff K v.ca_cert.subject_public_key claim v.jwt).1 v.accepted)
