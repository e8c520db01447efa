-- ===== src/Tests/Meeting.antt =====
-- The agent and the server on the two ends of a connection.
use mathlib.Core.Option.{some-injective}
use vm_auth_scope.Base.{
  ℕ, ◌<◌, ◌^◌, ◌≡◌, refl, sym, ap, ◌∙◌, some, [], Bytes, Text, codes, length, length-append, ◌%◌,
  arith,
}
use vm_auth_scope.Agent.Client.{cert_request}
use vm_auth_scope.Agent.Client.Requested.{IsExchanged}
use vm_auth_scope.Agent.Csr.{GeneratedCsr}
use vm_auth_scope.Base.Result.{ok, map_err}
use mathlib.Core.List.{append-nil}
use vm_auth_scope.Ca.Der.{encode_der_octet_string}
use vm_auth_scope.Ca.Jwt.{CapJwtSigner, from_pkcs8_der, sign}
use vm_auth_scope.Evaluator.Certificate.{from_cert_pem}
use vm_auth_scope.Evaluator.Grants.{Evaluator}
use vm_auth_scope.Io.{json}
use vm_auth_scope.Base.Result.Laws.{ok_injective}
use vm_auth_scope.Ca.Signing.{sign_csr, claim_of}
use vm_auth_scope.Deployment.Delivery.{IsGranted, exchanged-IsGranted}
use vm_auth_scope.Deployment.Evaluated.{IsFaithful, granted-IsFaithful}
use vm_auth_scope.Io.Memory.{memory, memory-IsFiles}
use vm_auth_scope.Io.Pipe.{Pipe, pipe, pipe-IsStream, pipe-IsLive}
use vm_auth_scope.Proto.Codec.{recv_json, to_be_bytes}
use vm_auth_scope.Proto.Codec.Frames.{frame}
use vm_auth_scope.Proto.Codec.RoundTrip.{recv_json_live}
use vm_auth_scope.Proto.Wire.{CertRequest, issued}
use vm_auth_scope.Server.Handler.{Ending, handle_connection, signing_request}
use vm_auth_scope.Server.Handler.Answer.{NoPanic, Answers, handle_connection_live}
use vm_auth_scope.Server.Handler.Reply.{Reply-granted}
use vm_auth_scope.Server.Policy.{PolicyDecision, resolve}
use vm_auth_scope.Tests.Codecs.{
  request_json, request_json-IsJson, write_request, read-write_request, response_json,
  response_json-IsJson, write_response,
}
use vm_auth_scope.Tests.Crates.{pki, pki-IsReadable, x509, write, unary, sum, fit}
use vm_auth_scope.Tests.Disks.{svc}
use vm_auth_scope.Tests.Keys.{
  ca_pem, toy, toy-IsTokens, ca, ambient, setting, decision, signed_for, pem, ca-IsKeyed,
  tokens_short,
}
use vm_auth_scope.Tests.Requests.{agent, dial}
use vm_auth_scope.Tests.Services.{piped, responses_total, resolved}

abbrev made : GeneratedCsr
made = record { key_pem = codes "fresh key"; csr_pem = codes "fresh key" }

abbrev ask : CertRequest
ask = cert_request agent svc made

abbrev body : Bytes
body = write_request ask

calm : NoPanic toy pki setting ask
calm d r s =
    let same = some-injective decision d (sym resolved ∙ r) in
    let signed = ap (λ d. sign_csr toy pki ambient ca (signing_request 3 ask d)) same in
    absurd (cc (sym (signed_for (codes "fresh key")) ∙ signed ∙ s))

abbrev host_end : Pipe
host_end = piped (frame body)

-- The server's end, and the bytes that it sent.
abbrev answer :
    Answers toy pki pipe pipe-IsStream pipe-IsLive request_json response_json responses_total
      setting ask host_end
      (handle_connection toy pki pipe request_json response_json setting host_end)
answer =
    handle_connection_live toy pki pipe pipe-IsStream pipe-IsLive request_json response_json
      responses_total setting ask body [] host_end tt (read-write_request ask) (omega arith)
      (sym (append-nil (frame body))) calm

response_issued : answer.response ≡ issued pem ca_pem
response_issued =
    Reply-granted toy pki setting ask decision pem answer.response
      (record { version_known = refl; resolved = resolved; same_cid = refl })
      (signed_for (codes "fresh key")) answer.deserved

abbrev reply : Bytes
reply = write_response (issued pem ca_pem)

payload_is : answer.payload ≡ reply
payload_is = ok_injective (sym answer.encoded ∙ ap response_json.to_vec response_issued)

-- The agent's end.
abbrev asked : Pipe
asked = record { incoming = frame reply; outgoing = frame body }

reply_short : length reply < 131072
unfolding write unary sum fit encode_der_octet_string
reply_short = omega arith

answer_read :
    (t : Pipe) × (recv_json pipe response_json asked
      ≡ (map_err json (response_json.from_slice reply), t))
    × (t.incoming ≡ [])
    × Unit {0}
answer_read =
    recv_json_live pipe pipe-IsStream pipe-IsLive response_json asked reply [] tt
      (omega (arith, reply_short)) (sym (append-nil (frame reply)))

exchanged :
    IsExchanged pki pipe pipe-IsStream memory memory-IsFiles request_json response_json dial 2 agent
      svc made
      (issued pem ca_pem)
      (record { incoming = frame reply; outgoing = [] })
      answer_read.0
unfolding map_err
exchanged = record {
  connected = record { incoming = frame reply; outgoing = [] };
  asked = asked;
  payload = body;
  dialled = refl;
  encoded = refl;
  grown = refl;
  received =
      answer_read.1
      ∙ ap (λ r. (map_err json r, answer_read.0))
          (response_json-IsJson.from_slice-to_vec (issued pem ca_pem) reply refl);
}

bytes_sent :
    (handle_connection toy pki pipe request_json response_json setting host_end).1.outgoing
    ≡ frame reply
bytes_sent =
    ap (λ (o : Ending × Pipe). o.1.outgoing) answer.ended ∙ answer.grown ∙ ap frame payload_is

exchanged-IsGranted_example : IsGranted toy pki setting ask pem ca_pem
unfolding exchanged to_be_bytes
exchanged-IsGranted_example =
    exchanged-IsGranted toy pki memory memory-IsFiles request_json request_json-IsJson response_json
      response_json-IsJson responses_total pipe pipe-IsStream dial pipe pipe-IsStream pipe-IsLive
      exchanged pem ca_pem setting host_end (frame reply) refl tt refl (omega arith) calm bytes_sent
      (omega (arith, reply_short, length-append (to_be_bytes (length reply % 2 ^ 32)) reply)) refl

granted : IsGranted toy pki setting ask pem ca_pem
granted = record {
  decision = decision;
  entitled = record { version_known = refl; resolved = resolved; same_cid = refl };
  signed = signed_for (codes "fresh key");
  same_ca = refl;
}

short :
    (d : PolicyDecision) (s : CapJwtSigner toy) (now : ℕ) (t : Text)
    → resolve setting.config ask.vm_name ask.entity ≡ some d
    → ambient.clock ≡ ok now
    → from_pkcs8_der toy ca.key_der ≡ ok s
    → sign toy s tt (claim_of (signing_request 3 ask d) now) ≡ ok t
    → length t < 65536
unfolding claim_of
short d s now t found at_time made_signer done =
    let same = some-injective decision d (sym resolved ∙ found) in
    tokens_short s now t at_time made_signer
      (ap (λ x. sign toy s tt (claim_of (signing_request 3 ask x) now)) same ∙ done)

granted-IsFaithful_example :
    (e : Evaluator) × (from_cert_pem x509 toy pem ca_pem ≡ ok e)
    × IsFaithful toy toy-IsTokens pki x509 pki-IsReadable setting ask e
granted-IsFaithful_example =
    granted-IsFaithful toy toy-IsTokens pki x509 pki-IsReadable setting ask pem ca_pem granted
      ca-IsKeyed short
