-- ===== src/Server/Handler/Answer.antt =====
-- On a connection that stays up every request is answered, with the response that it deserves.
use vm_auth_scope.Base.{
  ◌≤◌, ◌≡◌, ◌≢◌, refl, ap, ◌∙◌, Bool-cases, inl, inr, Option, none, some, ◌++◌, Bytes, Text, length,
  nat_beq, nat_beq_iff,
}
use vm_auth_scope.Base.Result.{Result, ok, err, panic, map_err}
use vm_auth_scope.Ca.Error.{CaError}
use vm_auth_scope.Ca.Pki.{Pki}
use vm_auth_scope.Ca.Signing.{sign_csr}
use vm_auth_scope.Ca.Tokens.{Tokens}
use vm_auth_scope.Io.{AnyError, message, json, Run, lift}
use vm_auth_scope.Io.Laws.{>>=_of_ok, >>=_of_err}
use vm_auth_scope.Io.Stream.{Stream, IsStream, IsLive}
use vm_auth_scope.Proto.Codec.{send_json, max_msg_bytes}
use vm_auth_scope.Proto.Codec.Frames.{frame, send_json-ok, send_json_live, recv_json-sent}
use vm_auth_scope.Proto.Codec.RoundTrip.{recv_json_live}
use vm_auth_scope.Proto.Json.{Json}
use vm_auth_scope.Proto.Wire.{protocol_version, CertRequest, CertResponse, issued, error}
use vm_auth_scope.Server.Policy.{PolicyDecision, resolve}
use vm_auth_scope.Server.Handler.{
  Setting, wrong_version, not_authorised, cid_failed, signing_failed, signing_request, issue,
  decide, serve, handle_inner, Ending, finished, conclude, handle_connection,
}
use vm_auth_scope.Server.Handler.Reply.{
  Reply, IsEntitled, other_version, unknown, foreign, unsigned, granted,
}

-- The signings that the policy leads to end without a panic.
abbrev pub NoPanic : (K : Tokens) (P : Pki) → Setting K P → CertRequest → Type 0
NoPanic K P c req =
    (decision : PolicyDecision)
    → resolve c.config req.vm_name req.entity ≡ some decision
    → sign_csr K P c.ambient c.ca (signing_request c.peer_cid req decision) ≢ panic

-- Every response has a JSON form.
abbrev pub IsTotal : Json CertResponse → Type 0
IsTotal R = (resp : CertResponse) → (b : Bytes) × (R.to_vec resp ≡ ok b)

module _ (K : Tokens) (P : Pki) (S : Stream) (L : IsStream S) (A : IsLive S L)
    (Q : Json CertRequest) (R : Json CertResponse) (total : IsTotal R) where
  open S use {State}
  open L use {sent, unread}

  -- The task ended after sending one frame, with a response that the request deserves.
  pub record Answers (c : Setting K P) (req : CertRequest) (s : State) (out : Ending × State)
      : Type 0 where
    pub response : CertResponse
    pub payload : Bytes
    pub after : State
    pub deserved : Reply K P c req response
    pub encoded : R.to_vec response ≡ ok payload
    pub ended : out ≡ (finished, after)
    pub grown : sent after ≡ sent s ++ frame payload

  module _ (c : Setting K P) (req : CertRequest) (s : State) (up : A.Up s) where
    -- A response that is sent, at once or after an error.
    respond :
        (resp : CertResponse) (out : Ending × State)
        → Reply K P c req resp
        → ((t : State) → send_json S R resp s ≡ (ok tt, t) → out ≡ (finished, t))
        → Answers c req s out
    respond resp out deserved h =
        let (payload, e) = total resp in
        let (t, done, _) = send_json_live S L R A resp payload s up e in
        let (payload', encoded, grown) = send_json-ok S L R resp s t done in
        record {
          response = resp;
          payload = payload';
          after = t;
          deserved = deserved;
          encoded = encoded;
          ended = h t done;
          grown = grown;
        }

    conclude_sent :
        (m : Run State AnyError (Unit {0})) (resp : CertResponse)
        → m s ≡ send_json S R resp s
        → Reply K P c req resp
        → Answers c req s (conclude K P S Q R (m s))
    unfolding conclude
    conclude_sent m resp same deserved = respond resp _ deserved (λ t done. rw (same ∙ done))

    -- An error in the handler is sent as its text.
    conclude_err :
        (m : Run State AnyError (Unit {0})) (text : Text)
        → m s ≡ (err (message text), s)
        → Reply K P c req (error text)
        → Answers c req s (conclude K P S Q R (m s))
    unfolding conclude
    conclude_err m text failed deserved =
        respond (error text) _ deserved (λ t done. rw failed (rw done))

    -- The signing, by its outcome.
    issue_live :
        (decision : PolicyDecision)
        → IsEntitled K P c req decision
        → (r : Result CaError Text)
        → sign_csr K P c.ambient c.ca (signing_request c.peer_cid req decision) ≡ r
        → r ≢ panic
        → Answers c req s (conclude K P S Q R (issue K P S Q R c req decision s))
    unfolding issue lift map_err
    issue_live decision h (ok pem) e calm =
        conclude_sent (issue K P S Q R c req decision) (issued pem c.ca.cert_pem)
          (rw ((nat_beq_iff _ _).1 h.same_cid) (>>=_of_ok _ _ s (rw e)))
          (granted decision pem h e refl)
    issue_live decision h (err x) e calm =
        conclude_err (issue K P S Q R c req decision) (signing_failed x)
          (rw ((nat_beq_iff _ _).1 h.same_cid) (>>=_of_err _ _ s (rw e)))
          (unsigned decision x h e refl)
    issue_live decision h panic e calm = absurd (calm refl)

    decide_live :
        (found : Option PolicyDecision)
        → req.version ≡ protocol_version
        → resolve c.config req.vm_name req.entity ≡ found
        → NoPanic K P c req
        → Answers c req s (conclude K P S Q R (decide K P S Q R c req found s))
    unfolding decide
    decide_live none v r calm =
        conclude_sent (decide K P S Q R c req none) (error (not_authorised req)) refl
          (unknown v r refl)
    decide_live (some decision) v r calm = elim (Bool-cases (nat_beq decision.vm_cid c.peer_cid)) [
      | inl same ↦
          issue_live decision
            (record { version_known = v; resolved = r; same_cid = (nat_beq_iff _ _).0 same }) _ refl
            (calm decision r)
      | inr other ↦
          conclude_err (issue K P S Q R c req decision) cid_failed (unfold issue lift in rw other)
            (foreign decision v r (λ e. cc (other, (nat_beq_iff _ _).1 e)) refl)
    ]

    serve_live : NoPanic K P c req → Answers c req s (conclude K P S Q R (serve K P S Q R c req s))
    unfolding serve
    serve_live calm = elim (Bool-cases (nat_beq req.version protocol_version)) [
      | inl same ↦ rw same (decide_live _ ((nat_beq_iff _ _).0 same) refl calm)
      | inr differs ↦
          conclude_sent (serve K P S Q R c req) (error (wrong_version req.version)) (rw differs)
            (other_version (λ e. cc (differs, (nat_beq_iff _ _).1 e)) refl)
    ]

  -- On a connection that stays up, with the frame of a request of at most 4 MiB in front, the task
  -- ends after sending one frame, with the response that the request deserves: the refusal of the
  -- first check that fails, the failure of the signing, or the certificate signed for it. Responses
  -- have a JSON form, and the signing for this request does not panic.
  pub handle_connection_live :
      (c : Setting K P) (req : CertRequest) (payload rest : Bytes) (s : State)
      → A.Up s
      → Q.from_slice payload ≡ ok req
      → length payload ≤ max_msg_bytes
      → unread s ≡ frame payload ++ rest
      → NoPanic K P c req
      → Answers c req s (handle_connection K P S Q R c s)
  unfolding handle_connection handle_inner map_err
  handle_connection_live c req payload rest s up parsed fits front calm =
      let (u, received, left, up') = recv_json_live S L A Q s payload rest up fits front in
      let got = received ∙ ap (λ r. (map_err json r, u)) parsed in
      let kept : sent u ≡ sent s = rw got at ((recv_json-sent S L Q).keeps s) in
      let a = serve_live c req u up' calm in
      record {
        response = a.response;
        payload = a.payload;
        after = a.after;
        deserved = a.deserved;
        encoded = a.encoded;
        ended = ap (conclude K P S Q R) (>>=_of_ok _ _ s got) ∙ a.ended;
        grown = a.grown ∙ ap (λ b. b ++ frame a.payload) kept;
      }
