-- ===== src/Server/Handler/Reply.antt =====
-- The response that a request deserves: the handler's contract.
use mathlib.Core.Option.{some-injective}
use vm_auth_scope.Base.Result.Laws.{ok_injective}
use vm_auth_scope.Base.{sym, ◌≡◌, ◌≢◌, ap, ◌∙◌, none, some, Text}
use vm_auth_scope.Base.Result.{ok, err}
use vm_auth_scope.Ca.Error.{CaError}
use vm_auth_scope.Ca.Pki.{Pki}
use vm_auth_scope.Ca.Signing.{sign_csr}
use vm_auth_scope.Ca.Tokens.{Tokens}
use vm_auth_scope.Proto.Wire.{protocol_version, CertRequest, CertResponse, issued, error}
use vm_auth_scope.Server.Policy.{PolicyDecision, resolve}
use vm_auth_scope.Server.Handler.{
  Setting, wrong_version, not_authorised, cid_failed, signing_failed, signing_request,
}

-- A request of this version for a VM and an entity that the policy knows, from that VM's CID.
pub record IsEntitled (K : Tokens) (P : Pki) (c : Setting K P) (req : CertRequest)
    (decision : PolicyDecision) : Type 0 where
  pub version_known : req.version ≡ protocol_version
  pub resolved : resolve c.config req.vm_name req.entity ≡ some decision
  pub same_cid : decision.vm_cid ≡ c.peer_cid

pub data Reply (K : Tokens) (P : Pki) (c : Setting K P) (req : CertRequest) (resp : CertResponse)
    : Type 0 where
  other_version :
      req.version ≢ protocol_version
      → resp ≡ error (wrong_version req.version)
      → Reply K P c req resp
  unknown :
      req.version ≡ protocol_version
      → resolve c.config req.vm_name req.entity ≡ none
      → resp ≡ error (not_authorised req)
      → Reply K P c req resp
  foreign :
      (decision : PolicyDecision)
      → req.version ≡ protocol_version
      → resolve c.config req.vm_name req.entity ≡ some decision
      → decision.vm_cid ≢ c.peer_cid
      → resp ≡ error cid_failed
      → Reply K P c req resp
  unsigned :
      (decision : PolicyDecision) (e : CaError)
      → IsEntitled K P c req decision
      → sign_csr K P c.ambient c.ca (signing_request c.peer_cid req decision) ≡ err e
      → resp ≡ error (signing_failed e)
      → Reply K P c req resp
  granted :
      (decision : PolicyDecision) (pem : Text)
      → IsEntitled K P c req decision
      → sign_csr K P c.ambient c.ca (signing_request c.peer_cid req decision) ≡ ok pem
      → resp ≡ issued pem c.ca.cert_pem
      → Reply K P c req resp

-- A certificate is the reply only to an entitled request, and is the one signed for it.
pub Reply-issued :
    (K : Tokens) (P : Pki) (c : Setting K P) (req : CertRequest) (pem ca_pem : Text)
    → Reply K P c req (issued pem ca_pem)
    → (decision : PolicyDecision) × IsEntitled K P c req decision
      × (sign_csr K P c.ambient c.ca (signing_request c.peer_cid req decision) ≡ ok pem)
      × (ca_pem ≡ c.ca.cert_pem)
Reply-issued K P c req pem ca_pem (other_version v e) = absurd (cc e)
Reply-issued K P c req pem ca_pem (unknown v r e) = absurd (cc e)
Reply-issued K P c req pem ca_pem (foreign d v r n e) = absurd (cc e)
Reply-issued K P c req pem ca_pem (unsigned d x h s e) = absurd (cc e)
Reply-issued K P c req pem ca_pem (granted d pem' h s e) =
    (d, h, s ∙ ap ok (issued_pem e), issued_ca e)
  where
    issued_pem : ◌≡◌ {A = CertResponse} (issued pem ca_pem) (issued pem' c.ca.cert_pem) → pem' ≡ pem
    issued_pem h = cc h

    issued_ca :
        ◌≡◌ {A = CertResponse} (issued pem ca_pem) (issued pem' c.ca.cert_pem)
        → ca_pem ≡ c.ca.cert_pem
    issued_ca h = cc h

-- An entitled request for which the signing succeeds is answered with that certificate, and with
-- nothing else.
pub Reply-granted :
    (K : Tokens) (P : Pki) (c : Setting K P) (req : CertRequest) (decision : PolicyDecision)
    (pem : Text) (resp : CertResponse)
    → IsEntitled K P c req decision
    → sign_csr K P c.ambient c.ca (signing_request c.peer_cid req decision) ≡ ok pem
    → Reply K P c req resp
    → resp ≡ issued pem c.ca.cert_pem
Reply-granted K P c req decision pem resp h signed (other_version v e) = absurd (v h.version_known)
Reply-granted K P c req decision pem resp h signed (unknown v r e) = absurd (cc (r, h.resolved))
Reply-granted K P c req decision pem resp h signed (foreign d v r n e) =
    let same = some-injective decision d (sym h.resolved ∙ r) in
    absurd (n (sym (ap (λ (x : PolicyDecision). x.vm_cid) same) ∙ h.same_cid))
Reply-granted K P c req decision pem resp h signed (unsigned d x g s e) =
    let same = some-injective decision d (sym h.resolved ∙ g.resolved) in
    absurd (
      cc (
        sym signed
        ∙ ap (λ y. sign_csr K P c.ambient c.ca (signing_request c.peer_cid req y)) same
        ∙ s))
Reply-granted K P c req decision pem resp h signed (granted d pem' g s e) =
    let same = some-injective decision d (sym h.resolved ∙ g.resolved) in
    let pems =
      sym signed
      ∙ ap (λ y. sign_csr K P c.ambient c.ca (signing_request c.peer_cid req y)) same
      ∙ s in
    e ∙ ap (λ p. issued p c.ca.cert_pem) (sym (ok_injective pems))
