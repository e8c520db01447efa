-- ===== src/Server/Handler/Panicked.antt =====
-- When a validity period is too long for a date.
use vm_auth_scope.Base.{ℕ, ◌≤◌, ◌≡◌, ap, ◌∙◌, none, some, ◌++◌, Bytes, Text, length, nat_beq_iff}
use vm_auth_scope.Base.Result.{ok, panic, ◌>>=◌, map_err, expect}
use vm_auth_scope.Ca.Jwt.{CapJwtSigner, from_pkcs8_der, sign}
use vm_auth_scope.Ca.Pki.{Pki, CsrParams}
use vm_auth_scope.Ca.Signing.{claim_of, end_year, sign_csr}
use vm_auth_scope.Ca.Tokens.{Tokens}
use vm_auth_scope.Io.{AnyError, json, follow, lift}
use vm_auth_scope.Io as Io
use vm_auth_scope.Io.Laws.{>>=_of_ok}
use vm_auth_scope.Io.Stream.{Stream, IsStream, IsLive}
use vm_auth_scope.Proto.Codec.{max_msg_bytes}
use vm_auth_scope.Proto.Codec.Frames.{frame, recv_json-sent}
use vm_auth_scope.Proto.Codec.RoundTrip.{recv_json_live}
use vm_auth_scope.Proto.Json.{Json}
use vm_auth_scope.Proto.Wire.{CertRequest, CertResponse}
use vm_auth_scope.Server.Handler.{
  Setting, signing_request, issue, decide, serve, handle_inner, panicked, conclude,
  handle_connection,
}
use vm_auth_scope.Server.Handler.Reply.{IsEntitled}
use vm_auth_scope.Server.Policy.{PolicyDecision}

module _ (K : Tokens) (P : Pki) (c : Setting K P) (req : CertRequest) where
  -- The signing comes as far as the end of the validity, for which there is no date.
  pub record IsTooLong (decision : PolicyDecision) : Type 0 where
    pub now : ℕ
    pub signer : CapJwtSigner K
    pub jwt : Text
    pub csr : CsrParams P.Date P.Other P.PublicKey
    pub first_day : P.Date
    pub clock_read : c.ambient.clock ≡ ok now
    pub signer_made : from_pkcs8_der K c.ca.key_der ≡ ok signer
    pub token_signed :
        sign K signer c.ambient.jwt_draw (claim_of (signing_request c.peer_cid req decision) now)
        ≡ ok jwt
    pub csr_parsed : P.csr_from_pem req.csr_pem ≡ ok csr
    pub begins : P.date_time_ymd 2024 1 1 ≡ some first_day
    pub never_ends : P.date_time_ymd (end_year decision.validity_days) 1 1 ≡ none

  sign_csr_too_long :
      (decision : PolicyDecision)
      → IsTooLong decision
      → sign_csr K P c.ambient c.ca (signing_request c.peer_cid req decision) ≡ panic
  unfolding sign_csr map_err expect ◌>>=◌
  sign_csr_too_long decision h =
      rw (h.clock_read, h.signer_made, h.token_signed, h.csr_parsed, h.begins, h.never_ends)

module _ (K : Tokens) (P : Pki) (S : Stream) (L : IsStream S) (A : IsLive S L)
    (Q : Json CertRequest) (R : Json CertResponse) where
  open S use {State}
  open L use {sent, unread}

  serve_too_long :
      (c : Setting K P) (req : CertRequest) (decision : PolicyDecision) (s : State)
      → IsEntitled K P c req decision
      → sign_csr K P c.ambient c.ca (signing_request c.peer_cid req decision) ≡ panic
      → serve K P S Q R c req s ≡ (panic, s)
  unfolding serve decide issue map_err lift follow Io.◌>>=◌
  serve_too_long c req decision s h p =
      rw ((nat_beq_iff _ _).1 h.version_known, h.resolved, (nat_beq_iff _ _).1 h.same_cid, p)

  -- A request that passes every check, and whose validity period ends in a year for which there is
  -- no date, panics in the signing: its task ends so, and sends nothing on the connection.
  pub handle_connection_too_long :
      (c : Setting K P) (req : CertRequest) (decision : PolicyDecision) (payload rest : Bytes)
      (s : State)
      → A.Up s
      → Q.from_slice payload ≡ ok req
      → length payload ≤ max_msg_bytes
      → unread s ≡ frame payload ++ rest
      → IsEntitled K P c req decision
      → IsTooLong K P c req decision
      → (t : State) × (handle_connection K P S Q R c s ≡ (panicked, t)) × (sent t ≡ sent s)
  unfolding handle_connection handle_inner map_err conclude
  handle_connection_too_long c req decision payload rest s up parsed fits front entitled long =
      let (u, received, left, up') = recv_json_live S L A Q s payload rest up fits front in
      let got = received ∙ ap (λ r. (map_err json r, u)) parsed in
      let kept : sent u ≡ sent s = rw got at ((recv_json-sent S L Q).keeps s) in
      let stopped =
        serve_too_long c req decision u entitled (sign_csr_too_long K P c req decision long) in
      (u, ap (conclude K P S Q R) (>>=_of_ok _ _ s got ∙ stopped), kept)
