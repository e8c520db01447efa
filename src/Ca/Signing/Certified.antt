-- ===== src/Ca/Signing/Certified.antt =====
-- What a certificate that `sign_csr` returns says, field by field.
use Prim.Native.Nat.{max}
use vm_auth_scope.Base.{
  ℕ, ◌+◌, ◌*◌, ◌/◌, ◌%◌, ◌^◌, ◌≤◌, ◌<◌, ◌≡◌, ◌⊎◌, inl, inr, refl, sym, ap, ◌∙◌, false, some, [],
  ◌∷◌, ◌++◌, Bytes, Text, codes, length, take, ltb, Bool-cases, arith,
}
use vm_auth_scope.Base.Result.{ok}
use vm_auth_scope.Base.Result.Laws.{ok_injective, >>=-eq-ok, map_err-eq-ok}
use vm_auth_scope.Ca.Authority.{CertificateAuthority, key_pair, rcgen_cert}
use vm_auth_scope.Ca.Jwt.{CapJwtSigner, from_pkcs8_der, verify_cap_jwt}
use vm_auth_scope.Ca.Jwt.RoundTrip.{verify_cap_jwt-sign}
use vm_auth_scope.Ca.Pki.{Pki, Params, CsrParams, digital_signature, content_commitment}
use vm_auth_scope.Ca.Signing.{
  SigningRequest, Ambient, claim_of, end_year, cap_extension, leaf_params, sign_csr,
}
use vm_auth_scope.Ca.Signing.Issued.{sign_csr_iff}
use vm_auth_scope.Ca.Tokens.{Tokens, IsTokens}
use vm_auth_scope.Evaluator.OctetString.{unwrap_octet_string}
use vm_auth_scope.Evaluator.OctetString.RoundTrip.{unwrap_octet_string-encode}
use vm_auth_scope.Proto.Caps.{CapClaim}

-- The claim names the requester, has all and only the capabilities of the request, and expires as
-- many days of 86400 seconds after the signing as the request says, on 64 bits.
pub record IsClaimOf (req : SigningRequest) (now : ℕ) (claim : CapClaim) : Type 0 where
  pub iss : claim.iss ≡ codes "auth-scope-ca"
  pub sub : claim.sub ≡ req.entity
  pub vm : claim.vm ≡ req.vm_name
  pub cid : claim.cid ≡ req.cid
  pub caps : claim.caps ≡ req.claims
  pub iat : claim.iat ≡ now
  pub exp : claim.exp ≡ (now + 86400 * req.validity_days) % 2 ^ 64

-- The years of 365 days that the days fill, but at least one.
pub record IsYears (days years : ℕ) : Type 0 where
  pub least : 1 ≤ years
  pub above : days < (years + 1) * 365
  pub below : (years ≡ 1) ⊎ (years * 365 ≤ days)

end_year-IsYears : (days : ℕ) → (years : ℕ) × IsYears days years × (end_year days ≡ 2024 + years)
end_year-IsYears days =
    let years : ℕ = max (days / 365) 1 in
    let filled : (years ≡ 1) ⊎ (years * 365 ≤ days) = elim (Bool-cases (ltb days 730)) [
      | inl few ↦ let low : days < 730 = ground arith in inl (omega (arith, low))
      | inr many ↦ let high : 730 ≤ days = ground arith in inr (omega (arith, high))
    ] in
    (years, record { least = omega arith; above = omega arith; below = filled }, refl)

module _ (K : Tokens) (L : IsTokens K) (P : Pki) where
  open P use {Date, Other, PublicKey, KeyPair, Certificate, Draw, date_time_ymd}

  -- The authority's certificate, made again from its PEM and its key, and that key.
  pub record IsIssuer (ca : CertificateAuthority) (draw : Draw) (issuer : Certificate)
      (key : KeyPair) : Type 0 where
    pub params : Params Date Other
    pub key_read : P.key_from_pem ca.key_pem ≡ ok key
    pub cert_read : P.from_ca_cert_pem ca.cert_pem ≡ ok params
    pub self_signed : P.self_signed params key draw ≡ ok issuer

  -- The parameters of the leaf: the key and the names of the request, the two usages, one more
  -- extension, which wraps the token, and the validity.
  pub record IsLeaf (req : SigningRequest) (csr leaf : CsrParams Date Other PublicKey) (jwt : Text)
      : Type 0 where
    pub value : Bytes
    pub years : ℕ
    pub same_key : leaf.public_key ≡ csr.public_key
    pub same_names : leaf.params.distinguished_name ≡ csr.params.distinguished_name
    pub same_rest : (leaf.params.is_ca ≡ csr.params.is_ca) × (leaf.params.other ≡ csr.params.other)
    pub usages : leaf.params.key_usages ≡ digital_signature ∷ content_commitment ∷ []
    pub extensions :
        leaf.params.custom_extensions
        ≡ csr.params.custom_extensions
          ++ record {
            oid = 1 ∷ 3 ∷ 6 ∷ 1 ∷ 4 ∷ 1 ∷ 99999 ∷ 1 ∷ [];
            content = value;
            critical = false;
          }
            ∷ []
    pub unwrapped : unwrap_octet_string value ≡ ok (take (length jwt % 65536) jwt)
    pub begins : date_time_ymd 2024 1 1 ≡ some leaf.params.not_before
    pub ends : date_time_ymd (2024 + years) 1 1 ≡ some leaf.params.not_after
    pub filled : IsYears req.validity_days years

  -- What stands behind the certificate.
  pub record IsCertified (ambient : Ambient K P) (ca : CertificateAuthority) (req : SigningRequest)
      (pem : Text) : Type 0 where
    pub now : ℕ
    pub signer : CapJwtSigner K
    pub claim : CapClaim
    pub jwt : Text
    pub csr : CsrParams Date Other PublicKey
    pub leaf_csr : CsrParams Date Other PublicKey
    pub issuer : Certificate
    pub issuer_key : KeyPair
    pub leaf : Certificate
    pub clock_read : ambient.clock ≡ ok now
    pub claimed : IsClaimOf req now claim
    pub signer_made : from_pkcs8_der K ca.key_der ≡ ok signer
    pub accepted : verify_cap_jwt K jwt (L.public_key signer.key_pair) ≡ ok claim
    pub csr_parsed : P.csr_from_pem req.csr_pem ≡ ok csr
    pub leaf_made : IsLeaf req csr leaf_csr jwt
    pub issuer_made : IsIssuer ca ambient.ca_draw issuer issuer_key
    pub leaf_signed : P.signed_by leaf_csr issuer issuer_key ambient.leaf_draw ≡ ok leaf
    pub printed : P.cert_pem leaf ≡ pem

  claim_of-IsClaimOf : (req : SigningRequest) (now : ℕ) → IsClaimOf req now (claim_of req now)
  unfolding claim_of
  claim_of-IsClaimOf req now = record {
    iss = refl;
    sub = refl;
    vm = refl;
    cid = refl;
    caps = refl;
    iat = refl;
    exp = ap (λ n. n % 2 ^ 64) (omega arith);
  }

  leaf_params-IsLeaf :
      (req : SigningRequest) (csr : CsrParams Date Other PublicKey) (jwt : Text) (first last : Date)
      → date_time_ymd 2024 1 1 ≡ some first
      → date_time_ymd (end_year req.validity_days) 1 1 ≡ some last
      → IsLeaf req csr (leaf_params K P csr jwt first last) jwt
  unfolding leaf_params
  leaf_params-IsLeaf req csr jwt first last begins ends =
      let (years, filled, same) = end_year-IsYears req.validity_days in
      record {
        value = (cap_extension jwt).content;
        years = years;
        same_key = refl;
        same_names = refl;
        same_rest = (refl, refl);
        usages = refl;
        extensions = refl;
        unwrapped = unwrap_octet_string-encode jwt;
        begins = begins;
        ends = ap (λ y. date_time_ymd y 1 1) (sym same) ∙ ends;
        filled = filled;
      }

  rcgen_cert-IsIssuer :
      (ca : CertificateAuthority) (draw : Draw) (issuer : Certificate) (key : KeyPair)
      → rcgen_cert P ca draw ≡ ok issuer
      → key_pair P ca ≡ ok key
      → IsIssuer ca draw issuer key
  unfolding rcgen_cert key_pair
  rcgen_cert-IsIssuer ca draw issuer key made read =
      let (k, e₁, h₁) = >>=-eq-ok _ _ made in
      let (params, e₂, h₂) = >>=-eq-ok _ _ h₁ in
      let same : k ≡ key = ok_injective (sym e₁ ∙ read) in
      record {
        params = params;
        key_read = map_err-eq-ok _ _ read;
        cert_read = map_err-eq-ok _ _ e₂;
        self_signed = ap (λ x. P.self_signed params x draw) (sym same) ∙ map_err-eq-ok _ _ h₂;
      }

  -- A certificate that `sign_csr` returns is signed with the authority's key, for the key and names
  -- of the CSR, for the two usages, from 2024 to as many years later as the requested days fill, at
  -- least one. Behind the CSR's own extensions it has one with the capability identifier, which
  -- wraps the first `length % 65536` bytes of a token, and that token is accepted under the
  -- authority's key with a claim of the request: its entity, VM, CID and capabilities, from now for
  -- the requested days.
  pub sign_csr-IsCertified :
      (ambient : Ambient K P) (ca : CertificateAuthority) (req : SigningRequest) (pem : Text)
      → sign_csr K P ambient ca req ≡ ok pem
      → IsCertified ambient ca req pem
  sign_csr-IsCertified ambient ca req pem h =
      let i = (sign_csr_iff K P ambient ca req pem).0 h in
      record {
        now = i.now;
        signer = i.signer;
        claim = claim_of req i.now;
        jwt = i.jwt;
        csr = i.csr;
        leaf_csr = leaf_params K P i.csr i.jwt i.first_day i.last_day;
        issuer = i.issuer;
        issuer_key = i.issuer_key;
        leaf = i.leaf;
        clock_read = i.clock_read;
        claimed = claim_of-IsClaimOf req i.now;
        signer_made = i.signer_made;
        accepted =
            verify_cap_jwt-sign K L i.signer ambient.jwt_draw (claim_of req i.now) i.jwt
              i.token_signed;
        csr_parsed = i.csr_parsed;
        leaf_made = leaf_params-IsLeaf req i.csr i.jwt i.first_day i.last_day i.begins i.ends;
        issuer_made =
            rcgen_cert-IsIssuer ca ambient.ca_draw i.issuer i.issuer_key i.issuer_made i.key_made;
        leaf_signed = i.leaf_signed;
        printed = i.printed;
      }
