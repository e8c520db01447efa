-- ===== src/Deployment/Evaluated.antt =====
-- What the certificate that an agent obtained allows, at the evaluator.
use vm_auth_scope.Base.{ℕ, ◌<◌, ◌≡◌, refl, ap, ◌∙◌, ◌↔◌, true, some, Some, Text, length}
use vm_auth_scope.Base.Result.{ok}
use vm_auth_scope.Ca.Jwt.{CapJwtSigner, from_pkcs8_der, sign}
use vm_auth_scope.Ca.Pki.{Pki}
use vm_auth_scope.Ca.Signing.{claim_of}
use vm_auth_scope.Ca.Tokens.{Tokens, IsTokens}
use vm_auth_scope.Deployment.Delivery.{IsGranted}
use vm_auth_scope.Evaluator.Certificate.{from_cert_pem}
use vm_auth_scope.Evaluator.EndToEnd.{IsReadable, IsKeyed, from_cert_pem-sign_csr}
use vm_auth_scope.Evaluator.Grants.{Evaluator, can_call_rpc, can_access_path}
use vm_auth_scope.Evaluator.Grants.Exact.{
  CallGrant, AccessGrant, can_call_rpc_iff, can_access_path_iff,
}
use vm_auth_scope.Evaluator.X509.{X509}
use vm_auth_scope.Proto.Wire.{CertRequest}
use vm_auth_scope.Server.Handler.{Setting, signing_request}
use vm_auth_scope.Server.Policy.{PolicyDecision, resolve}
use vm_auth_scope.Server.Policy.Found.{resolve_iff}

module _ (K : Tokens) (L : IsTokens K) (P : Pki) (X : X509) (C : IsReadable P X) where
  -- An evaluator that allows what the policy's capabilities for the request allow, and no more.
  pub record IsFaithful (c : Setting K P) (req : CertRequest) (e : Evaluator) : Type 0 where
    pub decision : PolicyDecision
    pub resolved : resolve c.config req.vm_name req.entity ≡ some decision
    pub same_cid : decision.vm_cid ≡ c.peer_cid
    pub named : (e.claim.vm ≡ req.vm_name) × (e.claim.sub ≡ req.entity) × (e.claim.cid ≡ c.peer_cid)
    pub calls :
        (vm module' method : Text)
        → (can_call_rpc e vm module' method ≡ true)
          ↔ Some (CallGrant vm module' method) decision.caps
    pub accesses :
        (vm path mode : Text)
        → (can_access_path e vm path mode ≡ true) ↔ Some (AccessGrant vm path mode) decision.caps

  -- A granted certificate is evaluated, under the authority's certificate that came with it, to
  -- an evaluator of the VM, the entity and the CID of the request that allows exactly the calls and
  -- accesses of the policy's capabilities, provided that the authority's certificate carries its
  -- signing key and that the token has less than 64 KiB.
  pub granted-IsFaithful :
      (c : Setting K P) (req : CertRequest) (cert_pem ca_pem : Text)
      → IsGranted K P c req cert_pem ca_pem
      → IsKeyed X K L c.ca
      → ((decision : PolicyDecision) (signer : CapJwtSigner K) (now : ℕ) (jwt : Text)
          → resolve c.config req.vm_name req.entity ≡ some decision
          → c.ambient.clock ≡ ok now
          → from_pkcs8_der K c.ca.key_der ≡ ok signer
          → sign K signer c.ambient.jwt_draw
              (claim_of (signing_request c.peer_cid req decision) now)
            ≡ ok jwt
          → length jwt < 65536)
      → (e : Evaluator) × (from_cert_pem X K cert_pem ca_pem ≡ ok e) × IsFaithful c req e
  unfolding claim_of
  granted-IsFaithful c req cert_pem ca_pem g keyed short =
      let (now, _, evaluated) =
        from_cert_pem-sign_csr K L P X C c.ambient c.ca (signing_request c.peer_cid req g.decision)
          cert_pem keyed g.signed
          (λ signer now jwt. short g.decision signer now jwt g.entitled.resolved) in
      let e : Evaluator = record {
        claim = claim_of (signing_request c.peer_cid req g.decision) now;
      } in
      let found = (resolve_iff c.config req.vm_name req.entity g.decision).0 g.entitled.resolved in
      (
        e,
        ap (from_cert_pem X K cert_pem) g.same_ca ∙ evaluated,
        record {
          decision = g.decision;
          resolved = g.entitled.resolved;
          same_cid = g.entitled.same_cid;
          named = (found.same_name, refl, refl);
          calls = λ vm module' method. can_call_rpc_iff vm module' method e;
          accesses = λ vm path mode. can_access_path_iff vm path mode e;
        },
      )
