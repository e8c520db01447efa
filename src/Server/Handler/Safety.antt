-- ===== src/Server/Handler/Safety.antt =====
-- What a handler that ends well has sent, whatever the connection does.
use vm_auth_scope.Base.{
  ◌≡◌, refl, sym, ap, ◌∙◌, Bool-cases, inl, inr, Option, none, some, ◌++◌, Bytes, Text, nat_beq,
  nat_beq_iff,
}
use vm_auth_scope.Base.Result.{ok}
use vm_auth_scope.Base.Result.Laws.{map_err-eq-ok}
use vm_auth_scope.Ca.Pki.{Pki}
use vm_auth_scope.Ca.Tokens.{Tokens}
use vm_auth_scope.Io.Laws.{>>=-eq-ok, lift-eq-ok}
use vm_auth_scope.Io.Stream.{Stream, IsStream}
use vm_auth_scope.Proto.Codec.{recv_json, send_json}
use vm_auth_scope.Proto.Codec.Frames.{frame, send_json-ok, recv_json-sent}
use vm_auth_scope.Proto.Json.{Json}
use vm_auth_scope.Proto.Wire.{protocol_version, CertRequest, CertResponse, issued, error}
use vm_auth_scope.Server.Policy.{PolicyDecision, resolve}
use vm_auth_scope.Server.Handler.{
  Setting, wrong_version, not_authorised, issue, decide, serve, handle_inner,
}
use vm_auth_scope.Server.Handler.Reply.{Reply, other_version, unknown, granted}

module _ (K : Tokens) (P : Pki) (S : Stream) (L : IsStream S) (Q : Json CertRequest)
    (R : Json CertResponse) where
  open S use {State}
  open L use {sent}

  -- One frame was sent, and it holds a response that the request deserves.
  pub record IsAnswered (c : Setting K P) (req : CertRequest) (s t : State) : Type 0 where
    pub response : CertResponse
    pub payload : Bytes
    pub deserved : Reply K P c req response
    pub encoded : R.to_vec response ≡ ok payload
    pub grown : sent t ≡ sent s ++ frame payload

  module _ (c : Setting K P) (req : CertRequest) (s t : State) where
    issue-ok :
        (decision : PolicyDecision)
        → req.version ≡ protocol_version
        → resolve c.config req.vm_name req.entity ≡ some decision
        → issue K P S Q R c req decision s ≡ (ok tt, t)
        → IsAnswered c req s t
    unfolding issue
    issue-ok decision v r h = elim (Bool-cases (nat_beq decision.vm_cid c.peer_cid)) [
      | inr other ↦ absurd (cc (lift-eq-ok _ s (rw other at h)).0)
      | inl same ↦
          let (pem, u, e, h') = >>=-eq-ok _ _ s (rw same at h) in
          let (signed, back) = lift-eq-ok _ s e in
          let (payload, encoded, grown) = send_json-ok S L R (issued pem c.ca.cert_pem) u t h' in
          record {
            response = issued pem c.ca.cert_pem;
            payload = payload;
            deserved =
                granted decision pem
                  (record { version_known = v; resolved = r; same_cid = (nat_beq_iff _ _).0 same })
                  (map_err-eq-ok _ _ signed) refl;
            encoded = encoded;
            grown = grown ∙ ap (λ w. sent w ++ frame payload) (sym back);
          }
    ]

    refuse-ok :
        (text : Text)
        → Reply K P c req (error text)
        → send_json S R (error text) s ≡ (ok tt, t)
        → IsAnswered c req s t
    refuse-ok text deserved h =
        let (payload, encoded, grown) = send_json-ok S L R (error text) s t h in
        record {
          response = error text;
          payload = payload;
          deserved = deserved;
          encoded = encoded;
          grown = grown;
        }

    decide-ok :
        (found : Option PolicyDecision)
        → req.version ≡ protocol_version
        → resolve c.config req.vm_name req.entity ≡ found
        → decide K P S Q R c req found s ≡ (ok tt, t)
        → IsAnswered c req s t
    unfolding decide
    decide-ok none v r h = refuse-ok (not_authorised req) (unknown v r refl) h
    decide-ok (some decision) v r h = issue-ok decision v r h

    serve-ok : serve K P S Q R c req s ≡ (ok tt, t) → IsAnswered c req s t
    unfolding serve
    serve-ok h = elim (Bool-cases (nat_beq req.version protocol_version)) [
      | inl same ↦ decide-ok _ ((nat_beq_iff _ _).0 same) refl (rw same at h)
      | inr differs ↦
          refuse-ok (wrong_version req.version)
            (other_version (λ e. cc (differs, (nat_beq_iff _ _).1 e)) refl) (rw differs at h)
    ]

  -- A handler that ends without an error has received one request and has sent one frame, whose
  -- response that request deserves: in particular a certificate only to an entitled request.
  pub handle_inner-ok :
      (c : Setting K P) (s t : State)
      → handle_inner K P S Q R c s ≡ (ok tt, t)
      → (req : CertRequest) × (u : State) × (recv_json S Q s ≡ (ok req, u)) × IsAnswered c req s t
  unfolding handle_inner
  handle_inner-ok c s t h =
      let (req, u, received, h') = >>=-eq-ok _ _ s h in
      let a = serve-ok c req u t h' in
      let kept : sent u ≡ sent s = rw received at ((recv_json-sent S L Q).keeps s) in
      (
        req,
        u,
        received,
        record {
          response = a.response;
          payload = a.payload;
          deserved = a.deserved;
          encoded = a.encoded;
          grown = a.grown ∙ ap (λ b. b ++ frame a.payload) kept;
        },
      )
