-- ===== src/Evaluator/UnitTest/Passed.antt =====
-- The test fails at none of its assertions.
use vm_auth_scope.Base.{
  ℕ, ◌<◌, ◌≡◌, refl, ap, ◌∙◌, false, List, Bytes, ◌++◌, Text, codes, length, text_beq,
}
use vm_auth_scope.Base.Result.{Result, ok}
use vm_auth_scope.Ca.Authority.{CertificateAuthority}
use vm_auth_scope.Ca.Jwt.{CapJwtSigner, from_pkcs8_der, sign}
use vm_auth_scope.Ca.Pki.{Pki}
use vm_auth_scope.Ca.Signing.{Ambient, claim_of, sign_csr}
use vm_auth_scope.Ca.Storage.{init}
use vm_auth_scope.Ca.Tokens.{Tokens, IsTokens}
use vm_auth_scope.Deployment.Fresh.{IsSelfKeyed, from_cert_pem-init}
use vm_auth_scope.Evaluator.Driver.{expect_ok, assert_all}
use vm_auth_scope.Evaluator.EndToEnd.{IsReadable}
use vm_auth_scope.Evaluator.Grants.{
  rpc_granted, can_call_rpc, path_granted, access_granted, can_access_path,
}
use vm_auth_scope.Evaluator.UnitTest.{request, checks, unwrap, test_evaluator_grants}
use vm_auth_scope.Evaluator.X509.{X509}
use vm_auth_scope.Io.{IoError, Run, lift}
use vm_auth_scope.Io.Files.{Files}
use vm_auth_scope.Io.Laws.{>>=_of_ok}

checks_hold :
    (csr_pem : Text) (now : ℕ)
    → assert_all (checks (record { claim = claim_of (request csr_pem) now })) ≡ ok tt
unfolding checks assert_all claim_of rpc_granted can_call_rpc path_granted access_granted
    can_access_path text_beq
checks_hold csr_pem now = refl

module _ (F : Files) (P : Pki) (certs : Text → List (Result IoError Bytes)) (K : Tokens)
    (X : X509) where
  open F use {Disk}
  open P use {Draw}

  unwrapped :
      {E A : Type 0} (m : Run Disk E A) (d d' : Disk) (a : A)
      → m d ≡ (ok a, d')
      → unwrap F P certs K X m d ≡ (ok a, d')
  unfolding unwrap expect_ok
  unwrapped m d d' a h = rw h refl

  lifted :
      {E A : Type 0} (r : Result E A) (d : Disk) (a : A)
      → r ≡ ok a
      → lift {E = ℕ} (expect_ok r) d ≡ (ok a, d)
  unfolding lift expect_ok
  lifted r d a h = rw h refl

  module _ (L : IsTokens K) (S : IsSelfKeyed P X K L) (readable : IsReadable P X) where
    -- When the directory is made, the authority is made, the crates make the key and the request,
    -- and the request is signed with a token of less than 64 KiB, the test passes: the evaluator
    -- takes the certificate, and every assertion holds.
    pub test_evaluator_grants_passes :
        (tempdir : Run Disk IoError Text) (ca_key ca_cert key csr_draw : Draw)
        (ambient : Ambient K P) (d d₁ d₂ : Disk) (dir : Text) (ca : CertificateAuthority)
        (agent_key : P.KeyPair) (csr : P.Csr) (csr_pem cert_pem : Text)
        → tempdir d ≡ (ok dir, d₁)
        → init F P certs
            (dir ++ codes "/ca-cert.pem")
            (dir ++ codes "/ca-key.pem")
            false
            ca_key
            ca_cert
            d₁
          ≡ (ok ca, d₂)
        → P.generate_for key ≡ ok agent_key
        → P.serialize_request P.default_params agent_key csr_draw ≡ ok csr
        → P.csr_pem csr ≡ ok csr_pem
        → sign_csr K P ambient ca (request csr_pem) ≡ ok cert_pem
        → ((signer : CapJwtSigner K) (now : ℕ) (jwt : Text)
            → ambient.clock ≡ ok now
            → from_pkcs8_der K ca.key_der ≡ ok signer
            → sign K signer ambient.jwt_draw (claim_of (request csr_pem) now) ≡ ok jwt
            → length jwt < 65536)
        → test_evaluator_grants F P certs K X tempdir (ca_key, ca_cert) (key, csr_draw) ambient d
          ≡ (ok tt, d₂)
    unfolding test_evaluator_grants lift
    test_evaluator_grants_passes tempdir ca_key ca_cert key csr_draw ambient d d₁ d₂ dir ca
          agent_key csr csr_pem cert_pem made_dir made made_key made_csr printed signed short =
        let (now, _, evaluated) =
          from_cert_pem-init F P certs K L X S readable _ _ ca_key ca_cert ca d₁ d₂ ambient
            (request csr_pem) cert_pem made signed short in
        >>=_of_ok _ _ d (unwrapped tempdir d d₁ dir made_dir)
        ∙ >>=_of_ok _ _ d₁ (unwrapped _ d₁ d₂ ca made)
        ∙ >>=_of_ok _ _ d₂ (lifted _ d₂ agent_key made_key)
        ∙ >>=_of_ok _ _ d₂ (lifted _ d₂ csr made_csr)
        ∙ >>=_of_ok _ _ d₂ (lifted _ d₂ csr_pem printed)
        ∙ >>=_of_ok _ _ d₂ (lifted _ d₂ cert_pem signed)
        ∙ >>=_of_ok _ _ d₂
            (lifted _ d₂ (record { claim = claim_of (request csr_pem) now }) evaluated)
        ∙ ap (λ r. lift r d₂) (checks_hold csr_pem now)
