-- ===== src/Tests/Services.antt =====
-- The codec, the handler and the daemon at concrete inputs, over a pipe.
use vm_auth_scope.Base.{
  ◌+◌, ◌≡◌, ◌↔◌, refl, sym, ap, ◌∙◌, some, List, [], ◌∷◌, ◌++◌, Bytes, codes, text_beq, arith, here,
}
use mathlib.Core.List.{append-nil}
use mathlib.Core.Option.{some-injective}
use vm_auth_scope.Base.Result.{ok, map_err}
use vm_auth_scope.Ca.Signing.{sign_csr}
use vm_auth_scope.Server.Config.{get}
use vm_auth_scope.Io.{follow, ◌>>=◌, lift, wrap}
use vm_auth_scope.Io.Pipe.{Pipe, pipe, pipe_read, pipe-IsStream, pipe-IsLive}
use vm_auth_scope.Proto.Codec.{
  max_msg_bytes, send_json, send_payload, recv_json, recv_payload, to_be_bytes, from_be_bytes,
}
use vm_auth_scope.Proto.Codec.Bounds.{IsTaken, recv_json-IsTaken}
use vm_auth_scope.Proto.Codec.Frames.{frame}
use vm_auth_scope.Proto.Codec.RoundTrip.{recv_json-send_json}
use vm_auth_scope.Proto.Wire.{CertRequest, error}
use vm_auth_scope.Server.Handler.{
  handle_inner, handle_connection, serve, signing_request, wrong_version,
}
use vm_auth_scope.Server.Handler.Answer.{NoPanic, IsTotal, Answers, handle_connection_live}
use vm_auth_scope.Server.Handler.Safety.{IsAnswered, handle_inner-ok}
use mathlib.Core.List.{Perm}
use vm_auth_scope.Server.Listener.{Accepted, connection, Task, spawned}
use vm_auth_scope.Server.Listener.Admitted.{IsTasks}
use vm_auth_scope.Server.Listener.Schedule.{System, Ended, Reach, begin, next, answer, run}
use vm_auth_scope.Server.Listener.Schedule.Sound.{IsAdmitted}
use vm_auth_scope.Server.Listener.Schedule.Replies.{Reach-Answers}
use vm_auth_scope.Server.Listener.Schedule.Tasks.{Reach-tasks}
use vm_auth_scope.Server.Policy.{resolve}
use vm_auth_scope.Server.Policy.Found.{IsFound, resolve_iff}
use vm_auth_scope.Tests.Codecs.{
  request_json, request_json-IsJson, write_request, read-write_request, response_json,
  write_response,
}
use vm_auth_scope.Tests.Keys.{toy, ambient, ca, config, setting, request, decision, order_signed}
use vm_auth_scope.Tests.Crates.{pki}

abbrev pub piped : Bytes → Pipe
piped b = record { incoming = b; outgoing = [] }

abbrev body : Bytes
body = write_request request

send_request :
    send_json pipe request_json request (piped [])
    ≡ (ok tt, record { incoming = []; outgoing = frame body })
unfolding send_json send_payload ◌>>=◌ lift wrap follow map_err
send_request = refl

recv_json-send_json_example :
    (r' : Pipe) × (recv_json pipe request_json (piped (frame body ++ codes "more"))
      ≡ (ok request, r'))
    × (r'.incoming ≡ codes "more")
recv_json-send_json_example =
    recv_json-send_json pipe pipe-IsStream pipe-IsLive request_json request_json-IsJson request body
      (frame body) (codes "more") (piped []) (record { incoming = []; outgoing = frame body })
      (piped (frame body ++ codes "more")) refl (omega arith) send_request refl tt refl

pub responses_total : IsTotal response_json
responses_total = λ resp. (write_response resp, refl)

pub resolved : resolve setting.config request.vm_name request.entity ≡ some decision
unfolding resolve get text_beq
resolved = refl

calm : NoPanic toy pki setting request
calm d r s =
    let same = some-injective decision d (sym resolved ∙ r) in
    let signed = ap (λ d. sign_csr toy pki ambient ca (signing_request 3 request d)) same in
    absurd (cc (sym order_signed ∙ signed ∙ s))

handle_connection_live_example :
    Answers toy pki pipe pipe-IsStream pipe-IsLive request_json response_json responses_total
      setting request
      (piped (frame body ++ []))
      (handle_connection toy pki pipe request_json response_json setting (piped (frame body ++ [])))
handle_connection_live_example =
    handle_connection_live toy pki pipe pipe-IsStream pipe-IsLive request_json response_json
      responses_total setting request body [] (piped (frame body ++ [])) tt
      (read-write_request request) (omega arith) refl calm

-- A request of another version.
abbrev future : CertRequest
future = record { version = 2; vm_name = codes "a"; entity = codes "svc"; csr_pem = codes "csr" }

abbrev refused : Pipe
refused = record { incoming = []; outgoing = frame (write_response (error (wrong_version 2))) }

handle_inner-future :
    handle_inner toy pki pipe request_json response_json setting
      (piped (frame (write_request future)))
    ≡ (ok tt, refused)
unfolding handle_inner serve send_json send_payload recv_json recv_payload ◌>>=◌ lift wrap follow
    map_err pipe_read to_be_bytes from_be_bytes
handle_inner-future = refl

handle_inner-ok_example :
    (req : CertRequest) × (u : Pipe) × (recv_json pipe request_json
        (piped (frame (write_request future)))
      ≡ (ok req, u))
    × IsAnswered toy pki pipe pipe-IsStream request_json response_json setting req
        (piped (frame (write_request future)))
        refused
handle_inner-ok_example =
    handle_inner-ok toy pki pipe pipe-IsStream request_json response_json setting
      (piped (frame (write_request future))) refused handle_inner-future

-- A connection from the peers' port, one from another port, and then the task of the first.
abbrev pub arrival : Accepted Pipe
arrival = connection (piped (frame body)) 3 901

abbrev task : Task Pipe
task = record { stream = piped (frame body); peer_cid = 3 }

abbrev Daemon : Type 0
Daemon = System toy pki pipe request_json response_json config ca

abbrev ended : Ended toy pki pipe request_json response_json config ca
ended = record {
  task = task;
  ambient = ambient;
  outcome = handle_connection toy pki pipe request_json response_json setting (piped (frame body));
}

abbrev stranger : Accepted Pipe
stranger = connection (piped []) 4 902

abbrev later : Daemon
later = record { answers = stranger ∷ arrival ∷ []; waiting = []; ended = ended ∷ [] }

later_reached : Reach toy pki pipe request_json response_json config ca later
unfolding spawned
later_reached =
    next (next (next begin (answer arrival refl)) (answer stranger refl))
      (run [] task [] ambient refl refl)

Reach-Answers_example :
    IsAdmitted config (stranger ∷ arrival ∷ []) task
    × Answers toy pki pipe pipe-IsStream pipe-IsLive request_json response_json responses_total
        setting request
        (piped (frame body))
        (handle_connection toy pki pipe request_json response_json setting (piped (frame body)))
Reach-Answers_example =
    Reach-Answers toy pki pipe pipe-IsStream pipe-IsLive request_json response_json responses_total
      config ca ended request body [] later_reached (here refl) tt (read-write_request request)
      (omega arith) (sym (append-nil (frame body))) calm

Reach-tasks_example :
    (l : List (Task Pipe)) × IsTasks config (stranger ∷ arrival ∷ []) l × Perm (task ∷ []) l
Reach-tasks_example = Reach-tasks toy pki pipe request_json response_json config ca later_reached

recv_json-IsTaken_example :
    IsTaken
      (4 + max_msg_bytes)
      (frame body ++ codes "more")
      (recv_json pipe request_json (piped (frame body ++ codes "more"))).1.incoming
recv_json-IsTaken_example =
    recv_json-IsTaken pipe pipe-IsStream request_json (piped (frame body ++ codes "more"))

resolve_iff_example :
    (resolve config (codes "a") (codes "svc") ≡ some decision)
    ↔ IsFound config (codes "a") (codes "svc") decision
resolve_iff_example = resolve_iff config (codes "a") (codes "svc") decision
