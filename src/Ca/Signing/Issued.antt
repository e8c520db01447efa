-- ===== src/Ca/Signing/Issued.antt =====
-- What stands behind a certificate that `sign_csr` returns.
use vm_auth_scope.Base.{ℕ, ◌≡◌, ap, ◌∙◌, ◌↔◌, some, Text}
use vm_auth_scope.Base.Result.{ok}
use vm_auth_scope.Base.Result.Laws.{
  >>=-eq-ok, map_err-eq-ok, expect-eq-ok, >>=_of_ok, map_err_of_ok, expect_of_some, ok_injective,
}
use vm_auth_scope.Ca.Authority.{CertificateAuthority, key_pair, rcgen_cert}
use vm_auth_scope.Ca.Jwt.{CapJwtSigner, from_pkcs8_der, sign}
use vm_auth_scope.Ca.Pki.{Pki, CsrParams}
use vm_auth_scope.Ca.Tokens.{Tokens}
use vm_auth_scope.Ca.Signing.{SigningRequest, Ambient, claim_of, end_year, leaf_params, sign_csr}

module _ (K : Tokens) (P : Pki) where
  open P use {Date, Other, PublicKey, KeyPair, Certificate, date_time_ymd}

  -- The clock was read, the claim of that time was signed, and the request was signed with the token
  -- in its extension and the two fixed days around its validity.
  pub record IsIssued (ambient : Ambient K P) (ca : CertificateAuthority) (req : SigningRequest)
      (pem : Text) : Type 0 where
    pub now : ℕ
    pub signer : CapJwtSigner K
    pub jwt : Text
    pub csr : CsrParams Date Other PublicKey
    pub first_day : Date
    pub last_day : Date
    pub issuer : Certificate
    pub issuer_key : KeyPair
    pub leaf : Certificate
    pub clock_read : ambient.clock ≡ ok now
    pub signer_made : from_pkcs8_der K ca.key_der ≡ ok signer
    pub token_signed : sign K signer ambient.jwt_draw (claim_of req now) ≡ ok jwt
    pub csr_parsed : P.csr_from_pem req.csr_pem ≡ ok csr
    pub begins : date_time_ymd 2024 1 1 ≡ some first_day
    pub ends : date_time_ymd (end_year req.validity_days) 1 1 ≡ some last_day
    pub issuer_made : rcgen_cert P ca ambient.ca_draw ≡ ok issuer
    pub key_made : key_pair P ca ≡ ok issuer_key
    pub leaf_signed :
        P.signed_by (leaf_params K P csr jwt first_day last_day) issuer issuer_key ambient.leaf_draw
        ≡ ok leaf
    pub printed : P.cert_pem leaf ≡ pem

  -- `sign_csr` returns a certificate exactly when every one of its steps succeeds, and the
  -- certificate is the one that they make.
  pub sign_csr_iff :
      (ambient : Ambient K P) (ca : CertificateAuthority) (req : SigningRequest) (pem : Text)
      → (sign_csr K P ambient ca req ≡ ok pem) ↔ IsIssued ambient ca req pem
  unfolding sign_csr
  sign_csr_iff ambient ca req pem = (sound, complete)
    where
      sound : sign_csr K P ambient ca req ≡ ok pem → IsIssued ambient ca req pem
      sound h =
          let (now, e₁, h₁) = >>=-eq-ok _ _ h in
          let (signer, e₂, h₂) = >>=-eq-ok _ _ h₁ in
          let (jwt, e₃, h₃) = >>=-eq-ok _ _ h₂ in
          let (csr, e₄, h₄) = >>=-eq-ok _ _ h₃ in
          let (first, e₅, h₅) = >>=-eq-ok _ _ h₄ in
          let (last, e₆, h₆) = >>=-eq-ok _ _ h₅ in
          let (issuer, e₇, h₇) = >>=-eq-ok _ _ h₆ in
          let (key, e₈, h₈) = >>=-eq-ok _ _ h₇ in
          let (leaf, e₉, h₉) = >>=-eq-ok _ _ h₈ in
          record {
            now = now;
            signer = signer;
            jwt = jwt;
            csr = csr;
            first_day = first;
            last_day = last;
            issuer = issuer;
            issuer_key = key;
            leaf = leaf;
            clock_read = map_err-eq-ok _ _ e₁;
            signer_made = e₂;
            token_signed = e₃;
            csr_parsed = map_err-eq-ok _ _ e₄;
            begins = expect-eq-ok _ e₅;
            ends = expect-eq-ok _ e₆;
            issuer_made = e₇;
            key_made = e₈;
            leaf_signed = map_err-eq-ok _ _ e₉;
            printed = ok_injective h₉;
          }

      complete : IsIssued ambient ca req pem → sign_csr K P ambient ca req ≡ ok pem
      complete i =
          >>=_of_ok _ _ (map_err_of_ok _ _ i.clock_read)
          ∙ >>=_of_ok _ _ i.signer_made
          ∙ >>=_of_ok _ _ i.token_signed
          ∙ >>=_of_ok _ _ (map_err_of_ok _ _ i.csr_parsed)
          ∙ >>=_of_ok _ _ (expect_of_some _ i.begins)
          ∙ >>=_of_ok _ _ (expect_of_some _ i.ends)
          ∙ >>=_of_ok _ _ i.issuer_made
          ∙ >>=_of_ok _ _ i.key_made
          ∙ >>=_of_ok _ _ (map_err_of_ok _ _ i.leaf_signed)
          ∙ ap ok i.printed
