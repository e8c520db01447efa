-- ===== src/Tests/Requests.antt =====
-- A request of the agent at a concrete input.
use vm_auth_scope.Base.{ℕ, ◌≡◌, refl, none, [], ◌∷◌, codes, text_beq}
use vm_auth_scope.Agent.Client.{host_cid, on_disk, on_network, settle, exchange, request_cert}
use vm_auth_scope.Agent.Client.Requested.{IsObtained, request_cert-IsObtained}
use vm_auth_scope.Agent.Config.{AgentConfig}
use vm_auth_scope.Agent.Csr.{GeneratedCsr, generate_csr}
use vm_auth_scope.Agent.Store.{
  trim_zeros, parse_octal_mode, create_parent, write_file, store_entity_credentials,
}
use vm_auth_scope.Base.Number.{from_str_radix}
use vm_auth_scope.Base.Result as Result
use vm_auth_scope.Base.Result.{ok, map_err}
use vm_auth_scope.Io.{AnyError, Run, ◌>>=◌, follow, lift, wrap}
use vm_auth_scope.Io.Memory.{Disk, put, change, memory, memory-IsFiles}
use vm_auth_scope.Io.Pipe.{Pipe, pipe, pipe_read, pipe-IsStream}
use vm_auth_scope.Proto.Codec.{
  send_json, send_payload, recv_json, recv_payload, to_be_bytes, from_be_bytes,
}
use vm_auth_scope.Proto.Codec.Frames.{frame}
use vm_auth_scope.Proto.Wire.{issued}
use vm_auth_scope.Tests.Codecs.{request_json, response_json, write_response}
use vm_auth_scope.Tests.Crates.{pki}
use vm_auth_scope.Tests.Disks.{svc, blank_disk, differ}
use vm_auth_scope.Tests.Services.{piped}

abbrev pub agent : AgentConfig
agent = record { vm_name = codes "a"; server_port = 900; entities = svc ∷ []; client_port = 901 }

-- Dialling succeeds, and the answer is already on its way.
abbrev pub dial : ℕ → ℕ → ℕ → Run Pipe AnyError (Unit {0})
dial cid port local s = (ok tt, s)

abbrev pub answered : Pipe
answered = piped (frame (write_response (issued (codes "C") (codes "A"))))

abbrev pub after_disk : Disk
after_disk =
    (request_cert pki pipe memory request_json response_json dial none agent svc tt tt
      (blank_disk, answered)).1.0

abbrev pub after_pipe : Pipe
after_pipe =
    (request_cert pki pipe memory request_json response_json dial none agent svc tt tt
      (blank_disk, answered)).1.1

pub requested :
    request_cert pki pipe memory request_json response_json dial none agent svc tt tt
      (blank_disk, answered)
    ≡ (ok tt, (after_disk, after_pipe))
unfolding request_cert on_disk on_network settle exchange generate_csr store_entity_credentials
    write_file create_parent parse_octal_mode trim_zeros from_str_radix put change ◌>>=◌ follow lift
    wrap map_err text_beq send_json send_payload recv_json recv_payload to_be_bytes from_be_bytes
    pipe_read Result.◌>>=◌
requested = refl

request_cert-IsObtained_example :
    (generated : GeneratedCsr) × (generate_csr pki (codes "svc") tt tt ≡ ok generated)
    × IsObtained pki pipe pipe-IsStream memory memory-IsFiles request_json response_json dial
        (host_cid none)
        agent
        svc
        generated
        answered
        after_pipe
        after_disk
request_cert-IsObtained_example =
    request_cert-IsObtained pki pipe pipe-IsStream memory memory-IsFiles request_json response_json
      dial svc (unfold text_beq in differ refl) (unfold text_beq in differ refl)
      (unfold text_beq in differ refl) none agent tt tt blank_disk after_disk answered after_pipe
      requested
