-- ===== src/Evaluator/EndToEnd.antt =====
-- From `sign_csr` to `Evaluator::from_cert_pem`: what the authority signs is what the peer's
-- evaluator reads.
use vm_auth_scope.Base.{
  ℕ, ◌<◌, ◌≡◌, refl, some, List, [], ◌∷◌, ◌++◌, map, Bytes, Text, length, All, text_eq, text_beq,
}
use mathlib.Core.Path.{subst}
use vm_auth_scope.Base.Utf8.{is_utf8_ascii}
use vm_auth_scope.Base.Result.{ok}
use vm_auth_scope.Ca.Authority.{CertificateAuthority}
use vm_auth_scope.Ca.Jwt.{CapJwtSigner, cap_extension_oid, from_pkcs8_der, sign}
use vm_auth_scope.Ca.Jwt.Accepts.{verify_cap_jwt_iff}
use vm_auth_scope.Ca.Jwt.RoundTrip.{verify_cap_jwt-sign, sign-IsAscii}
use vm_auth_scope.Ca.Pki.{Pki, CsrParams, CustomExtension}
use vm_auth_scope.Ca.Signing.{
  SigningRequest, Ambient, claim_of, cap_extension, leaf_params, sign_csr,
}
use vm_auth_scope.Ca.Signing.Issued.{sign_csr_iff}
use vm_auth_scope.Ca.Tokens.{Tokens, IsTokens}
use vm_auth_scope.Evaluator.Certificate.{find_capability, from_cert_pem}
use vm_auth_scope.Evaluator.Certificate.Vouched.{Holds, from_cert_pem_iff}
use vm_auth_scope.Evaluator.OctetString.RoundTrip.{unwrap_octet_string-encode_whole}
use vm_auth_scope.Evaluator.X509.{Extension, X509Certificate, X509}

-- An extension of the standard arc, `2.…`.
abbrev pub IsStandard : Extension → Type 0
IsStandard ext = (arcs : List ℕ) × (ext.oid ≡ some (2 ∷ arcs))

-- A custom extension as the parser shows it.
abbrev pub shown : CustomExtension → Extension
shown c = record { oid = some c.oid; value = c.content }

-- How `rcgen` and `x509_parser` fit together: a request with an extension of its own that is not
-- standard is refused, and a signed certificate is parsed with its custom extensions behind the
-- standard ones.
pub record IsReadable (P : Pki) (X : X509) : Type 0 where
  pub csr_custom :
      (pem : Text) (csr : CsrParams P.Date P.Other P.PublicKey)
      → P.csr_from_pem pem ≡ ok csr
      → csr.params.custom_extensions ≡ []
  pub signed_parsed :
      (csr : CsrParams P.Date P.Other P.PublicKey) (issuer leaf : P.Certificate) (key : P.KeyPair)
      (draw : P.Draw)
      → P.signed_by csr issuer key draw ≡ ok leaf
      → (cert : X509Certificate) × (front back : List Extension) × Holds X (P.cert_pem leaf) cert
        × All IsStandard front
        × (cert.extensions ≡ front ++ (map shown csr.params.custom_extensions ++ back))

-- The certificate of the authority carries the public key of the key that it signs with.
pub record IsKeyed (X : X509) (K : Tokens) (L : IsTokens K) (ca : CertificateAuthority)
    : Type 0 where
  pub cert : X509Certificate
  pub held : Holds X ca.cert_pem cert
  pub same_key :
      (signer : CapJwtSigner K)
      → from_pkcs8_der K ca.key_der ≡ ok signer
      → cert.subject_public_key ≡ L.public_key signer.key_pair

find_capability_front :
    (front rest : List Extension) (value : Bytes)
    → All IsStandard front
    → find_capability (front ++ record { oid = some cap_extension_oid; value = value } ∷ rest)
      ≡ ok (some value)
unfolding find_capability text_beq
find_capability_front [] rest value h = refl
find_capability_front (ext ∷ front) rest value (h, hs) =
    rw h.1 (find_capability_front front rest value hs)

module _ (K : Tokens) (L : IsTokens K) (P : Pki) (X : X509) (F : IsReadable P X) where
  -- The evaluator finds the token in a leaf that was signed with it.
  find_capability-leaf :
      (pem : Text) (csr : CsrParams P.Date P.Other P.PublicKey) (jwt : Text) (from' to : P.Date)
      (exts front back : List Extension)
      → P.csr_from_pem pem ≡ ok csr
      → All IsStandard front
      → exts
        ≡ front ++ (map shown (leaf_params K P csr jwt from' to).params.custom_extensions ++ back)
      → find_capability exts ≡ ok (some (cap_extension jwt).content)
  unfolding leaf_params
  find_capability-leaf pem csr jwt from' to exts front back parsed standard e =
      rw (e, F.csr_custom pem csr parsed) (find_capability_front front back _ standard)

  -- A certificate that the authority signed is evaluated, under the authority's certificate, to the
  -- claim of the request at the time of signing, provided that this certificate carries the public
  -- key of the authority's signing key and that the token has less than 64 KiB.
  pub from_cert_pem-sign_csr :
      (ambient : Ambient K P) (ca : CertificateAuthority) (req : SigningRequest) (pem : Text)
      → IsKeyed X K L ca
      → sign_csr K P ambient ca req ≡ ok pem
      → ((signer : CapJwtSigner K) (now : ℕ) (jwt : Text)
          → ambient.clock ≡ ok now
          → from_pkcs8_der K ca.key_der ≡ ok signer
          → sign K signer ambient.jwt_draw (claim_of req now) ≡ ok jwt
          → length jwt < 65536)
      → (now : ℕ) × (ambient.clock ≡ ok now)
        × (from_cert_pem X K pem ca.cert_pem ≡ ok (record { claim = claim_of req now }))
  from_cert_pem-sign_csr ambient ca req pem keyed signed short =
      let i = (sign_csr_iff K P ambient ca req pem).0 signed in
      let (cert, front, back, held, standard, exts) =
        F.signed_parsed _ i.issuer i.leaf i.issuer_key ambient.leaf_draw i.leaf_signed in
      (
        i.now,
        i.clock_read,
        (from_cert_pem_iff X K pem ca.cert_pem (claim_of req i.now)).1 (record {
          ca_cert = keyed.cert;
          peer_cert = cert;
          value = (cap_extension i.jwt).content;
          jwt = i.jwt;
          ca_held = keyed.held;
          peer_held = subst (λ p. Holds X p cert) i.printed held;
          found =
              find_capability-leaf req.csr_pem i.csr i.jwt i.first_day i.last_day _ front back
                i.csr_parsed standard exts;
          unwrapped =
              unwrap_octet_string-encode_whole i.jwt
                (short i.signer i.now i.jwt i.clock_read i.signer_made i.token_signed);
          utf8 =
              is_utf8_ascii i.jwt
                (sign-IsAscii K L i.signer ambient.jwt_draw _ i.jwt i.token_signed);
          accepted =
              (verify_cap_jwt_iff K keyed.cert.subject_public_key (claim_of req i.now) i.jwt).0 (
                rw (keyed.same_key i.signer i.signer_made)
                  (verify_cap_jwt-sign K L i.signer ambient.jwt_draw _ i.jwt i.token_signed));
        }),
      )
