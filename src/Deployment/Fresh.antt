-- ===== src/Deployment/Fresh.antt =====
-- An authority that `init` made, at the evaluator.
use mathlib.Core.Path.{subst}
use vm_auth_scope.Base.{ℕ, ◌<◌, ◌≡◌, ap, ◌∙◌, false, List, Bytes, Text, length}
use vm_auth_scope.Base.Result.{Result, ok}
use vm_auth_scope.Base.Result.Laws as Result
use vm_auth_scope.Base.Result.Laws.{ok_injective, map_err-eq-ok}
use vm_auth_scope.Ca.Authority.{CertificateAuthority}
use vm_auth_scope.Ca.Jwt.{CapJwtSigner, from_pkcs8_der, sign}
use vm_auth_scope.Ca.Pki.{Pki, Params}
use vm_auth_scope.Ca.Signing.{SigningRequest, Ambient, claim_of, sign_csr}
use vm_auth_scope.Ca.Storage.{save, set_mode_600, authority_of, generate, init}
use vm_auth_scope.Ca.Tokens.{Tokens, IsTokens}
use vm_auth_scope.Evaluator.Certificate.{from_cert_pem}
use vm_auth_scope.Evaluator.Certificate.Vouched.{Holds}
use vm_auth_scope.Evaluator.EndToEnd.{IsReadable, IsKeyed, from_cert_pem-sign_csr}
use vm_auth_scope.Evaluator.X509.{X509Certificate, X509}
use vm_auth_scope.Io.{IoError}
use vm_auth_scope.Io.Files.{Files}
use vm_auth_scope.Io.Laws.{>>=-eq-ok, lift-eq-ok}

-- A self-signed certificate is parsed with the public key of its key: that which `ring` has of the
-- key's DER.
pub record IsSelfKeyed (P : Pki) (X : X509) (K : Tokens) (L : IsTokens K) : Type 0 where
  pub self_signed_parsed :
      (params : Params P.Date P.Other) (key : P.KeyPair) (draw : P.Draw) (c : P.Certificate)
      → P.self_signed params key draw ≡ ok c
      → (cert : X509Certificate) × Holds X (P.cert_pem c) cert
        × ((k : K.EcdsaKeyPair)
            → K.from_pkcs8 (P.serialize_der key) ≡ ok k
            → cert.subject_public_key ≡ L.public_key k)

module _ (F : Files) (P : Pki) (certs : Text → List (Result IoError Bytes)) where
  open F use {Disk}

  save-made :
      (cert_path key_path : Text) (made ca : CertificateAuthority) (s t : Disk)
      → save F P certs cert_path key_path made s ≡ (ok ca, t)
      → made ≡ ca
  unfolding save set_mode_600
  save-made cert_path key_path made ca s t h =
      let (_, s₁, _, h₁) = >>=-eq-ok _ _ s h in
      let (_, s₂, _, h₂) = >>=-eq-ok _ _ s₁ h₁ in
      let (_, s₃, _, h₃) = >>=-eq-ok _ _ s₂ h₂ in
      let (_, s₄, _, h₄) = >>=-eq-ok _ _ s₃ h₃ in
      let (_, s₅, _, h₅) = >>=-eq-ok _ _ s₄ h₄ in ok_injective (lift-eq-ok _ s₅ h₅).0

  module _ (K : Tokens) (L : IsTokens K) (X : X509) (G : IsSelfKeyed P X K L) where
    from_pkcs8_der-eq-ok :
        (der : Bytes) (signer : CapJwtSigner K)
        → from_pkcs8_der K der ≡ ok signer
        → K.from_pkcs8 der ≡ ok signer.key_pair
    unfolding from_pkcs8_der
    from_pkcs8_der-eq-ok der signer h =
        let (k, e, same) = Result.>>=-eq-ok _ _ h in
        map_err-eq-ok _ _ e ∙ ap (λ (s : CapJwtSigner K). ok s.key_pair) (ok_injective same)

    authority_of-IsKeyed :
        (params : Params P.Date P.Other) (key : P.KeyPair) (draw : P.Draw) (c : P.Certificate)
        → P.self_signed params key draw ≡ ok c
        → IsKeyed X K L (authority_of F P certs key c)
    authority_of-IsKeyed params key draw c made =
        let (cert, held, keyed) = G.self_signed_parsed params key draw c made in
        record {
          cert = cert;
          held = held;
          same_key = λ signer h. keyed signer.key_pair (from_pkcs8_der-eq-ok _ signer h);
        }

    init-IsKeyed :
        (cert_path key_path : Text) (d d' : P.Draw) (ca : CertificateAuthority) (s t : Disk)
        → init F P certs cert_path key_path false d d' s ≡ (ok ca, t)
        → IsKeyed X K L ca
    unfolding init generate
    init-IsKeyed cert_path key_path d d' ca s t h =
        let (k, s₁, _, h₁) = >>=-eq-ok _ _ _ h in
        let (_, s₂, _, h₂) = >>=-eq-ok _ _ s₁ h₁ in
        let (_, s₃, _, h₃) = >>=-eq-ok _ _ s₂ h₂ in
        let (c, s₄, e₄, h₄) = >>=-eq-ok _ _ s₃ h₃ in
        subst (IsKeyed X K L) (save-made cert_path key_path _ ca s₄ t h₄)
          (authority_of-IsKeyed _ k d' c (map_err-eq-ok _ _ (lift-eq-ok _ s₃ e₄).0))

    -- What an authority signs that `init` made, not asked to keep what is there, the evaluator
    -- reads under that authority's certificate as the claim of the request at the time of signing,
    -- provided that the token has less than 64 KiB.
    pub from_cert_pem-init :
        IsReadable P X
        → (cert_path key_path : Text) (d d' : P.Draw) (ca : CertificateAuthority) (s t : Disk)
          (ambient : Ambient K P) (req : SigningRequest) (pem : Text)
        → init F P certs cert_path key_path false d d' s ≡ (ok ca, t)
        → sign_csr K P ambient ca req ≡ ok pem
        → ((signer : CapJwtSigner K) (now : ℕ) (jwt : Text)
            → ambient.clock ≡ ok now
            → from_pkcs8_der K ca.key_der ≡ ok signer
            → sign K signer ambient.jwt_draw (claim_of req now) ≡ ok jwt
            → length jwt < 65536)
        → (now : ℕ) × (ambient.clock ≡ ok now)
          × (from_cert_pem X K pem ca.cert_pem ≡ ok (record { claim = claim_of req now }))
    from_cert_pem-init readable cert_path key_path d d' ca s t ambient req pem made signed short =
        from_cert_pem-sign_csr K L P X readable ambient ca req pem
          (init-IsKeyed cert_path key_path d d' ca s t made) signed short
