-- ===== src/Evaluator/UnitTest.antt =====
-- `test_evaluator_grants` of libs/rust-libs/auth-scope-evaluator/src/lib.rs. An `unwrap` of an error and a
-- failed assertion are panics; making the directory is a parameter.
pub mod Passed
use vm_auth_scope.Base.{
  ℕ, Bool, ◌≡◌, refl, sym, ap, ◌∙◌, false, not, List, [], ◌∷◌, ◌++◌, Bytes, Text, codes, length,
  ◌<◌, ◌==◌, text_eq, text_beq,
}
use vm_auth_scope.Base.Result.{Result, ok}
use vm_auth_scope.Ca.Authority.{CertificateAuthority}
use vm_auth_scope.Ca.Jwt.{CapJwtSigner, from_pkcs8_der, sign, dotted}
use vm_auth_scope.Ca.Pki.{Pki}
use vm_auth_scope.Ca.Signing.{SigningRequest, Ambient, claim_of, sign_csr}
use vm_auth_scope.Ca.Storage.{init}
use vm_auth_scope.Ca.Tokens.{Tokens, IsTokens}
use vm_auth_scope.Deployment.Fresh.{IsSelfKeyed, from_cert_pem-init}
use vm_auth_scope.Evaluator.Certificate.{from_cert_pem}
use vm_auth_scope.Evaluator.Driver.{expect_ok, assert_all}
use vm_auth_scope.Evaluator.EndToEnd.{IsReadable}
use vm_auth_scope.Evaluator.Grants.{
  Evaluator, rpc_granted, can_call_rpc, path_granted, access_granted, can_access_path,
}
use vm_auth_scope.Evaluator.X509.{X509}
use vm_auth_scope.Io.{IoError, Run, ◌>>=◌, ◌>>◌, lift}
use vm_auth_scope.Io.Files.{Files}
use vm_auth_scope.Io.Laws.{>>=_of_ok}
use vm_auth_scope.Proto.Caps.{Capability}

abbrev caps : List Capability
caps =
    record {
      target_vm = codes "my-vm";
      rpc_modules = codes "auth" ∷ [];
      rpc_methods = codes "data.read_secure" ∷ [];
      paths = record { path = codes "/api/v1/health"; access = codes "read" ∷ [] } ∷ [];
    }
    ∷ []

abbrev pub request : Text → SigningRequest
request csr_pem = record {
  csr_pem = csr_pem;
  entity = codes "peer-service";
  vm_name = codes "peer-vm";
  cid = 10;
  claims = caps;
  validity_days = 10;
}

-- The assertions, in their order.
unfoldable pub checks : Evaluator → List Bool
checks eval =
    (eval.claim.sub == codes "peer-service")
    ∷ can_call_rpc eval (codes "my-vm") (codes "auth") (codes "login")
    ∷ can_call_rpc eval (codes "my-vm") (codes "data") (codes "read_secure")
    ∷ not (can_call_rpc eval (codes "my-vm") (codes "data") (codes "write"))
    ∷ not (can_call_rpc eval (codes "other-vm") (codes "auth") (codes "login"))
    ∷ can_access_path eval (codes "my-vm") (codes "/api/v1/health") (codes "read")
    ∷ not (can_access_path eval (codes "my-vm") (codes "/api/v1/health") (codes "write"))
    ∷ not (can_access_path eval (codes "my-vm") (codes "/api/v1/admin") (codes "read"))
    ∷ []

module _ (F : Files) (P : Pki) (certs : Text → List (Result IoError Bytes)) (K : Tokens)
    (X : X509) where
  open F use {Disk}
  open P use {Draw}

  -- `.unwrap()`
  unfoldable pub unwrap : {E A : Type 0} → Run Disk E A → Run Disk ℕ A
  unwrap m d = let (r, d') = m d in (expect_ok r, d')

  -- The draws are those of the authority's key and certificate, and of the agent's key and request.
  unfoldable pub test_evaluator_grants :
      Run Disk IoError Text → (Draw × Draw) → (Draw × Draw) → Ambient K P → Run Disk ℕ (Unit {0})
  test_evaluator_grants tempdir (ca_key, ca_cert) (key, csr_draw) ambient = do
    dir ← unwrap tempdir
    ca ← unwrap (
        init F P certs (dir ++ codes "/ca-cert.pem") (dir ++ codes "/ca-key.pem") false ca_key
          ca_cert)
    agent_key ← lift (expect_ok (P.generate_for key))
    csr ← lift (expect_ok (P.serialize_request P.default_params agent_key csr_draw))
    csr_pem ← lift (expect_ok (P.csr_pem csr))
    peer_cert_pem ← lift (expect_ok (sign_csr K P ambient ca (request csr_pem)))
    eval ← lift (expect_ok (from_cert_pem X K peer_cert_pem ca.cert_pem))
    lift (assert_all (checks eval))
