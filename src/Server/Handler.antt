-- ===== src/Server/Handler.antt =====
-- apps/rust-apps/auth-scope-server/src/handler.rs
pub mod Reply
pub mod Panicked
pub mod Safety
pub mod Answer
use vm_auth_scope.Base.{
  ℕ, Bool, not, Option, none, some, List, [], ◌∷◌, ◌++◌, Text, codes, ◌==◌, nat_eq, if◌then◌else◌,
}
use vm_auth_scope.Base.Number.{to_text}
use vm_auth_scope.Base.Result.{Result, ok, err, panic, map_err}
use vm_auth_scope.Ca.Authority.{CertificateAuthority}
use vm_auth_scope.Ca.Error.{CaError, display}
use vm_auth_scope.Ca.Pki.{Pki}
use vm_auth_scope.Ca.Signing.{SigningRequest, Ambient, sign_csr}
use vm_auth_scope.Ca.Tokens.{Tokens}
use vm_auth_scope.Io.{AnyError, message, to_string, Run, ◌>>=◌, lift}
use vm_auth_scope.Io.Stream.{Stream}
use vm_auth_scope.Proto.Codec.{send_json, recv_json}
use vm_auth_scope.Proto.Json.{Json}
use vm_auth_scope.Proto.Wire.{protocol_version, CertRequest, CertResponse, issued, error}
use vm_auth_scope.Server.Config.{HostConfig}
use vm_auth_scope.Server.Policy.{PolicyDecision, resolve}

-- The texts of the refusals.
abbrev pub wrong_version : ℕ → Text
wrong_version version =
    codes "unsupported protocol version "
    ++ (to_text version ++ (codes " (expected " ++ (to_text protocol_version ++ codes ")")))

abbrev pub not_authorised : CertRequest → Text
not_authorised req =
    codes "VM '"
    ++ (req.vm_name ++ (codes "' / entity '" ++ (req.entity ++ codes "' not authorised")))

abbrev pub cid_failed : Text
cid_failed = codes "CID verification failed"

abbrev pub signing_failed : CaError → Text
signing_failed e = codes "signing failed: " ++ display e

-- What is signed for a request, once it is authorised.
abbrev pub signing_request : ℕ → CertRequest → PolicyDecision → SigningRequest
signing_request peer_cid req decision = record {
  csr_pem = req.csr_pem;
  entity = req.entity;
  vm_name = decision.vm_name;
  cid = peer_cid;
  claims = decision.caps;
  validity_days = decision.validity_days;
}

-- How a connection's task ends. A panic ends the task and drops the connection.
pub data Ending : Type 0 where
  finished panicked : Ending

ending : {A : Type 0} → Result AnyError A → Ending
ending (ok a) = finished
ending (err e) = finished
ending panic = panicked

-- What the parts of the handler share: the crates, the JSON forms and the connection; then the
-- peer, the configuration, the authority and what the system gives to this connection's signing.
pub record Setting (K : Tokens) (P : Pki) : Type 0 where
  pub peer_cid : ℕ
  pub config : HostConfig
  pub ca : CertificateAuthority
  pub ambient : Ambient K P

module _ (K : Tokens) (P : Pki) (S : Stream) (Q : Json CertRequest) (R : Json CertResponse) where
  open S use {State}

  -- From the decision on: the check of the peer's CID, the signing and the response.
  unfoldable pub issue : Setting K P → CertRequest → PolicyDecision → Run State AnyError (Unit {0})
  issue c req decision =
      if not (decision.vm_cid == c.peer_cid) then lift (err (message cid_failed)) else do
        cert_pem ← lift (
            map_err (λ e. message (signing_failed e))
              (sign_csr K P c.ambient c.ca (signing_request c.peer_cid req decision)))
        send_json S R (issued cert_pem c.ca.cert_pem)

  -- The policy lookup.
  unfoldable pub decide :
      Setting K P → CertRequest → Option PolicyDecision → Run State AnyError (Unit {0})
  decide c req none = send_json S R (error (not_authorised req))
  decide c req (some decision) = issue c req decision

  -- From the received request on.
  unfoldable pub serve : Setting K P → CertRequest → Run State AnyError (Unit {0})
  serve c req =
      if not (req.version == protocol_version)
      then send_json S R (error (wrong_version req.version))
      else decide c req (resolve c.config req.vm_name req.entity)

  unfoldable pub handle_inner : Setting K P → Run State AnyError (Unit {0})
  handle_inner c = do req ← recv_json S Q; serve c req

  -- The match on the outcome of `handle_inner`; the error response's own outcome is dropped.
  unfoldable pub conclude : Result AnyError (Unit {0}) × State → Ending × State
  unfolding ending
  conclude (ok _, s) = (finished, s)
  conclude (err e, s) = let (r, t) = send_json S R (error (to_string e)) s in (ending r, t)
  conclude (panic, s) = (panicked, s)

  unfoldable pub handle_connection : Setting K P → State → Ending × State
  unfolding conclude
  handle_connection c s = conclude (handle_inner c s)
