-- ===== src/Deployment/Delivery.antt =====
-- A certificate that an agent receives, at the server.
use vm_auth_scope.Base.{
  ℕ, ◌≤◌, ◌<◌, ◌%◌, ◌^◌, ◌≡◌, refl, sym, ap, ◌∙◌, [], ◌++◌, Bytes, Text, length, length-append,
  append_cancel, arith,
}
use mathlib.Core.List.{append-nil}
use mathlib.Core.Path.{subst}
use vm_auth_scope.Agent.Client.{cert_request}
use vm_auth_scope.Agent.Client.Requested.{IsExchanged}
use vm_auth_scope.Agent.Config.{AgentConfig, EntityEntry}
use vm_auth_scope.Agent.Csr.{GeneratedCsr}
use vm_auth_scope.Base.Result.{ok}
use vm_auth_scope.Base.Result.Laws.{ok_injective}
use vm_auth_scope.Ca.Pki.{Pki}
use vm_auth_scope.Ca.Signing.{sign_csr}
use vm_auth_scope.Ca.Tokens.{Tokens}
use vm_auth_scope.Io.{AnyError, Run}
use vm_auth_scope.Io.Files.{Files, IsFiles}
use vm_auth_scope.Io.Stream.{Stream, IsStream, IsLive}
use vm_auth_scope.Proto.Codec.{max_msg_bytes, to_be_bytes, from_be_bytes}
use vm_auth_scope.Proto.Codec.Frames.{frame, recv_json-ok}
use vm_auth_scope.Proto.Codec.Words.{length-to_be_bytes, from_be_bytes-to_be_bytes}
use vm_auth_scope.Proto.Json.{Json, IsJson}
use vm_auth_scope.Proto.Wire.{CertRequest, CertResponse, issued}
use vm_auth_scope.Server.Handler.{Ending, Setting, signing_request, handle_connection}
use vm_auth_scope.Server.Handler.Answer.{NoPanic, IsTotal, Answers, handle_connection_live}
use vm_auth_scope.Server.Handler.Reply.{Reply, IsEntitled, Reply-issued}
use vm_auth_scope.Server.Policy.{PolicyDecision}

module _ (K : Tokens) (P : Pki) where
  -- What the agent got for its request: the host's certificate, and that signed for it under the
  -- policy for the peer's CID.
  pub record IsGranted (c : Setting K P) (req : CertRequest) (cert_pem ca_pem : Text) : Type 0 where
    pub decision : PolicyDecision
    pub entitled : IsEntitled K P c req decision
    pub signed : sign_csr K P c.ambient c.ca (signing_request c.peer_cid req decision) ≡ ok cert_pem
    pub same_ca : ca_pem ≡ c.ca.cert_pem

-- The only payload of a frame that is whole.
frame_whole :
    (header payload rest p : Bytes)
    → length header ≡ 4
    → length payload ≡ from_be_bytes header
    → length p < 2 ^ 32
    → frame p ≡ header ++ (payload ++ rest)
    → payload ≡ p
frame_whole header payload rest p four announced small e =
    let (same, left) =
      append_cancel header (to_be_bytes (length p % 2 ^ 32)) (payload ++ rest) p
        (omega (arith, four, length-to_be_bytes (length p % 2 ^ 32))) (sym e) in
    let n : length payload ≡ length p =
      announced
      ∙ ap from_be_bytes same
      ∙ from_be_bytes-to_be_bytes (length p % 2 ^ 32) (omega arith)
      ∙ omega arith in
    (append_cancel payload p rest [] n (left ∙ sym (append-nil p))).0

module _ (K : Tokens) (P : Pki) (F : Files) (D : IsFiles F) (Q : Json CertRequest) (IQ : IsJson Q)
    (R : Json CertResponse) (IR : IsJson R) (total : IsTotal R) where
  module _ (G : Stream) (LG : IsStream G) (connect : ℕ → ℕ → ℕ → Run G.State AnyError (Unit {0}))
      (H : Stream) (LH : IsStream H) (AH : IsLive H LH) where
    module _ {cid : ℕ} {config : AgentConfig} {entity : EntityEntry} {generated : GeneratedCsr}
        {resp : CertResponse} {s t : G.State}
        (x : IsExchanged P G LG F D Q R connect cid config entity generated resp s t) where
      abbrev asked_for : CertRequest
      asked_for = cert_request config entity generated

      -- The response of a frame that is all that the agent had to read.
      received_whole :
          (sent_response : CertResponse) (p : Bytes)
          → R.to_vec sent_response ≡ ok p
          → length p < 2 ^ 32
          → LG.unread x.asked ≡ frame p
          → resp ≡ sent_response
      received_whole sent_response p made small e =
          let (header, payload, four, announced, _, parsed, front) =
            recv_json-ok G LG R x.asked t resp x.received in
          let same =
            frame_whole header payload (LG.unread t) p four announced small (sym e ∙ front) in
          ok_injective
            (sym parsed ∙ ap R.from_slice same ∙ IR.from_slice-to_vec sent_response p made)

      delivered :
          (c : Setting K P) (u : H.State) (out : Ending × H.State) (bytes : Bytes)
          → Answers K P H LH AH Q R total c asked_for u out
          → LH.sent out.1 ≡ LH.sent u ++ bytes
          → length bytes < 2 ^ 32
          → LG.unread x.asked ≡ bytes
          → Reply K P c asked_for resp
      delivered c u out bytes a grown small e =
          let kept = ap (λ (o : Ending × H.State). LH.sent o.1) a.ended in
          let (_, wire) =
            append_cancel (LH.sent u) (LH.sent u) bytes (frame a.payload) refl
              (sym grown ∙ kept ∙ a.grown) in
          let size = length-append (to_be_bytes (length a.payload % 2 ^ 32)) a.payload in
          let same =
            received_whole a.response a.payload a.encoded (omega (arith, size, ap length wire))
              (e ∙ wire) in
          subst (Reply K P c asked_for) (sym same) a.deserved

      -- An agent that received a certificate sent its request to the server, whose connection was up
      -- and whose handler answered on it, what each sent being what the other had to read. Then the
      -- certificate is the one that the server signed for that very request, for an entity that its
      -- policy knows in that VM and for the VM's own CID. The request has at most 4 MiB, what the
      -- server sent less than 4 GiB, and the signing does not panic.
      pub exchanged-IsGranted :
          (cert_pem ca_pem : Text) (c : Setting K P) (u : H.State) (bytes : Bytes)
          → resp ≡ issued cert_pem ca_pem
          → AH.Up u
          → LH.unread u ≡ frame x.payload
          → length x.payload ≤ max_msg_bytes
          → NoPanic K P c asked_for
          → LH.sent (handle_connection K P H Q R c u).1 ≡ LH.sent u ++ bytes
          → length bytes < 2 ^ 32
          → LG.unread x.asked ≡ bytes
          → IsGranted K P c asked_for cert_pem ca_pem
      exchanged-IsGranted cert_pem ca_pem c u bytes got up wire_up fits calm grown small wire_down =
          let a =
            handle_connection_live K P H LH AH Q R total c asked_for x.payload [] u up
              (IQ.from_slice-to_vec asked_for x.payload x.encoded) fits
              (wire_up ∙ sym (append-nil (frame x.payload))) calm in
          let reply =
            delivered c u (handle_connection K P H Q R c u) bytes a grown small wire_down in
          let (decision, entitled, signed, same) =
            Reply-issued K P c asked_for cert_pem ca_pem
              (subst (Reply K P c asked_for) got reply) in
          record { decision = decision; entitled = entitled; signed = signed; same_ca = same }
