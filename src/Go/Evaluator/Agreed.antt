-- ===== src/Go/Evaluator/Agreed.antt =====
-- What the authority signs, the evaluator in Go reads, and it answers as the one in Rust.
use mathlib.Core.Path.{subst}
use vm_auth_scope.Base.{
  ℕ, ◌^◌, ◌<◌, ◌≡◌, ◌≢◌, refl, sym, ap, ◌∙◌, true, inr, List, [], ◌∷◌, ◌++◌, map, Bytes, Text,
  length, take, drop, All, arith,
}
use vm_auth_scope.Base.Number.{big_endian}
use vm_auth_scope.Base.Result.{ok}
use vm_auth_scope.Base.Result.Laws.{ok_injective}
use vm_auth_scope.Ca.Authority.{CertificateAuthority}
use vm_auth_scope.Ca.Der.Standard.{IsOctetString, encode_der_octet_string-IsOctetString}
use vm_auth_scope.Ca.Jwt.{CapJwtSigner, cap_jwt_header, from_pkcs8_der, sign}
use vm_auth_scope.Ca.Jwt.RoundTrip.{IsUrlSafe-Lacks, sign-eq-ok}
use vm_auth_scope.Ca.Pki.{Pki, CsrParams, CustomExtension}
use vm_auth_scope.Ca.Signing.{
  SigningRequest, Ambient, claim_of, cap_extension, leaf_params, sign_csr,
}
use vm_auth_scope.Ca.Signing.Issued.{sign_csr_iff}
use vm_auth_scope.Ca.Tokens.{Tokens, IsTokens}
use vm_auth_scope.Evaluator.Certificate.{from_cert_pem}
use vm_auth_scope.Evaluator.EndToEnd.{IsReadable, IsKeyed, from_cert_pem-sign_csr}
use vm_auth_scope.Evaluator.Grants as Rust
use vm_auth_scope.Evaluator.X509.{X509}
use vm_auth_scope.Go.Evaluator.{cap_extension_oid, new_evaluator}
use vm_auth_scope.Go.Evaluator.Verified.{IsSigned, Holds, new_evaluator_iff}
use vm_auth_scope.Go.Grants.{Evaluator, can_call_rpc, can_access_path}
use vm_auth_scope.Go.Grants.Same.{grants_same}
use vm_auth_scope.Go.Library.{Extension, ecdsa, Certificate, Library}
use vm_auth_scope.Proto.Caps.{CapClaim}

-- A custom extension as Go's parser shows it.
abbrev pub shown : CustomExtension → Extension
shown c = record { id = c.oid; value = c.content }

-- How Go's library reads what `rcgen`, `ring`, `base64` and `serde_json` write: a signature is 64 bytes,
-- which verify as its two halves; base64 and a claim's JSON are read back; the content of an OCTET
-- STRING of DER, of a length that an `int32` holds, is read; a signed certificate is parsed with its
-- custom extensions behind others.
pub record IsCompatible (K : Tokens) (P : Pki) (G : Library) : Type 0 where
  pub ecdsa_key : K.EcdsaKeyPair → G.PublicKey
  pub sign-length :
      (k : K.EcdsaKeyPair) (d : K.Draw) (m s : Bytes) → K.sign k d m ≡ ok s → length s ≡ 64
  pub verify-sign :
      (k : K.EcdsaKeyPair) (d : K.Draw) (m s : Bytes)
      → K.sign k d m ≡ ok s
      → G.verify (ecdsa_key k) (G.sum256 m) (big_endian 0 (take 32 s)) (big_endian 0 (drop 32 s))
        ≡ true
  pub decode_string-encode : (b : Bytes) → G.decode_string (K.encode b) ≡ inr b
  pub unmarshal_claim-to_vec :
      (c : CapClaim) (b : Bytes) → K.claim_json.to_vec c ≡ ok b → G.unmarshal_claim b ≡ inr c
  pub unmarshal-IsOctetString :
      (value content : Bytes)
      → IsOctetString value content
      → length content < 2 ^ 31
      → G.unmarshal_octet_string value ≡ inr content
  pub signed_parsed :
      (csr : CsrParams P.Date P.Other P.PublicKey) (issuer leaf : P.Certificate) (key : P.KeyPair)
      (draw : P.Draw)
      → P.signed_by csr issuer key draw ≡ ok leaf
      → (cert : Certificate G.PublicKey) × (front back : List Extension) × Holds G
          (P.cert_pem leaf)
          cert
        × All (λ (e : Extension). e.id ≢ cap_extension_oid) front
        × (cert.extensions ≡ front ++ (map shown csr.params.custom_extensions ++ back))

module _ (K : Tokens) (L : IsTokens K) (P : Pki) (G : Library) (C : IsCompatible K P G) where
  -- The authority's certificate carries the public key of the key that it signs with.
  pub record IsHeld (ca : CertificateAuthority) : Type 0 where
    pub cert : Certificate G.PublicKey
    pub held : Holds G ca.cert_pem cert
    pub same_key :
        (signer : CapJwtSigner K)
        → from_pkcs8_der K ca.key_der ≡ ok signer
        → cert.public_key ≡ ecdsa (C.ecdsa_key signer.key_pair)

  sign-IsSigned :
      (signer : CapJwtSigner K) (draw : K.Draw) (claim : CapClaim) (jwt : Text)
      → sign K signer draw claim ≡ ok jwt
      → IsSigned G (C.ecdsa_key signer.key_pair) jwt claim
  sign-IsSigned signer draw claim jwt h =
      let (json, sig, made, signed, whole) = sign-eq-ok K L signer draw claim jwt h in
      record {
        header = K.encode cap_jwt_header;
        payload = K.encode json;
        signature = K.encode sig;
        sig = sig;
        payload_bytes = json;
        parts = whole;
        header-Lacks = IsUrlSafe-Lacks _ (L.encode-IsUrlSafe cap_jwt_header);
        payload-Lacks = IsUrlSafe-Lacks _ (L.encode-IsUrlSafe json);
        signature-Lacks = IsUrlSafe-Lacks _ (L.encode-IsUrlSafe sig);
        sig_decoded = C.decode_string-encode sig;
        sig_length = C.sign-length signer.key_pair draw _ sig signed;
        signed = C.verify-sign signer.key_pair draw _ sig signed;
        payload_decoded = C.decode_string-encode json;
        parsed = C.unmarshal_claim-to_vec claim json made;
      }

  module _ (X : X509) (F : IsReadable P X) where
    -- The extensions of a leaf, whose request has none of its own.
    leaf_extensions :
        (pem : Text) (csr : CsrParams P.Date P.Other P.PublicKey) (jwt : Text) (from' to : P.Date)
        → P.csr_from_pem pem ≡ ok csr
        → map shown (leaf_params K P csr jwt from' to).params.custom_extensions
          ≡ shown (cap_extension jwt) ∷ []
    unfolding leaf_params
    leaf_extensions pem csr jwt from' to parsed = rw (F.csr_custom pem csr parsed)

    new_evaluator-sign_csr :
        (ambient : Ambient K P) (ca : CertificateAuthority) (req : SigningRequest) (pem : Text)
        → IsHeld ca
        → sign_csr K P ambient ca req ≡ ok pem
        → ((signer : CapJwtSigner K) (now : ℕ) (jwt : Text)
            → ambient.clock ≡ ok now
            → from_pkcs8_der K ca.key_der ≡ ok signer
            → sign K signer ambient.jwt_draw (claim_of req now) ≡ ok jwt
            → length jwt < 65536)
        → (now : ℕ) × (ambient.clock ≡ ok now)
          × (new_evaluator G pem ca.cert_pem ≡ ok (record { claim = claim_of req now }))
    new_evaluator-sign_csr ambient ca req pem keyed signed short =
        let i = (sign_csr_iff K P ambient ca req pem).0 signed in
        let few = short i.signer i.now i.jwt i.clock_read i.signer_made i.token_signed in
        let (cert, front, back, held, others, exts) =
          C.signed_parsed _ i.issuer i.leaf i.issuer_key ambient.leaf_draw i.leaf_signed in
        (
          i.now,
          i.clock_read,
          (new_evaluator_iff G pem ca.cert_pem (claim_of req i.now)).1 (record {
            ca_cert = keyed.cert;
            peer_cert = cert;
            key = C.ecdsa_key i.signer.key_pair;
            value = (cap_extension i.jwt).content;
            jwt = i.jwt;
            ca_held = keyed.held;
            peer_held = subst (λ p. Holds G p cert) i.printed held;
            same_key = keyed.same_key i.signer i.signer_made;
            found = record {
              front = front;
              back = back;
              split =
                  exts
                  ∙ ap (λ l. front ++ (l ++ back))
                      (leaf_extensions req.csr_pem i.csr i.jwt i.first_day i.last_day i.csr_parsed);
              others = others;
            };
            unwrapped =
                C.unmarshal-IsOctetString _ i.jwt (encode_der_octet_string-IsOctetString i.jwt few)
                  (omega (arith, few));
            accepted = sign-IsSigned i.signer ambient.jwt_draw _ i.jwt i.token_signed;
          }),
        )

    -- The evaluators agree on the certificate: each takes the claim, and they allow the same.
    pub record IsAgreed (req : SigningRequest) (pem ca_pem : Text) : Type 0 where
      pub rust : Rust.Evaluator
      pub go : Evaluator
      pub now : ℕ
      pub rust_made : from_cert_pem X K pem ca_pem ≡ ok rust
      pub go_made : new_evaluator G pem ca_pem ≡ ok go
      pub rust_claim : rust.claim ≡ claim_of req now
      pub go_claim : go.claim ≡ claim_of req now
      pub same_calls :
          (vm module' method : Text)
          → can_call_rpc go vm module' method ≡ Rust.can_call_rpc rust vm module' method
      pub same_accesses :
          (vm path mode : Text)
          → can_access_path go vm path mode ≡ Rust.can_access_path rust vm path mode

    -- A certificate that the authority signed is evaluated in Go and in Rust to the claim of the
    -- request at the time of signing, and both evaluators allow the same calls and accesses, provided
    -- that the authority's certificate carries the public key of its signing key and that the token
    -- has less than 64 KiB.
    pub sign_csr-IsAgreed :
        (ambient : Ambient K P) (ca : CertificateAuthority) (req : SigningRequest) (pem : Text)
        → IsHeld ca
        → IsKeyed X K L ca
        → sign_csr K P ambient ca req ≡ ok pem
        → ((signer : CapJwtSigner K) (now : ℕ) (jwt : Text)
            → ambient.clock ≡ ok now
            → from_pkcs8_der K ca.key_der ≡ ok signer
            → sign K signer ambient.jwt_draw (claim_of req now) ≡ ok jwt
            → length jwt < 65536)
        → IsAgreed req pem ca.cert_pem
    sign_csr-IsAgreed ambient ca req pem held keyed signed short =
        let (now, at_time, made) =
          from_cert_pem-sign_csr K L P X F ambient ca req pem keyed signed short in
        let (now', at_time', made') = new_evaluator-sign_csr ambient ca req pem held signed short in
        let same : now' ≡ now = ok_injective (sym at_time' ∙ at_time) in
        record {
          rust = record { claim = claim_of req now };
          go = record { claim = claim_of req now };
          now = now;
          rust_made = made;
          go_made = made' ∙ ap (λ t. ok (record { claim = claim_of req t })) same;
          rust_claim = refl;
          go_claim = refl;
          same_calls = λ vm module' method. (grants_same (claim_of req now) vm module' method).0;
          same_accesses = λ vm path mode. (grants_same (claim_of req now) vm path mode).1;
        }
