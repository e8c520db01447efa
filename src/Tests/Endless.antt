-- ===== src/Tests/Endless.antt =====
-- A policy whose validity ends in the year 10000.
use vm_auth_scope.Base.{◌≡◌, refl, sym, some, [], ◌∷◌, Bytes, Text, codes, text_beq, arith}
use mathlib.Core.List.{append-nil}
use vm_auth_scope.Base.Result.{ok, ◌>>=◌, map_err}
use vm_auth_scope.Ca.Jwt.{from_pkcs8_der, cap_jwt_header, dotted, sign}
use vm_auth_scope.Ca.Signing.{claim_of}
use vm_auth_scope.Ca.Tokens.{Tokens}
use vm_auth_scope.Io.Pipe.{Pipe, pipe, pipe-IsStream, pipe-IsLive}
use vm_auth_scope.Proto.Codec.Frames.{frame}
use vm_auth_scope.Server.Config.{HostConfig, get}
use vm_auth_scope.Server.Handler.{Setting, handle_connection, signing_request, panicked}
use vm_auth_scope.Server.Handler.Panicked.{IsTooLong, handle_connection_too_long}
use vm_auth_scope.Server.Handler.Reply.{IsEntitled}
use vm_auth_scope.Server.Policy.{PolicyDecision, resolve}
use vm_auth_scope.Tests.Codecs.{
  request_json, write_request, read-write_request, response_json, only, only-to_vec,
}
use vm_auth_scope.Tests.Crates.{blank, tokens, pki, write, signature}
use vm_auth_scope.Tests.Keys.{grant, config, request, ca, claim-discrete}
use vm_auth_scope.Tests.Services.{piped}

abbrev endless : HostConfig
endless = record config {
  vms =
      (
        codes "a",
        record {
          vm_cid = 3;
          entities = (codes "svc", record { caps = grant ∷ []; validity_days = some 2911240 }) ∷ [];
        },
      )
      ∷ [];
}

abbrev decision : PolicyDecision
decision = record { vm_name = codes "a"; vm_cid = 3; caps = grant ∷ []; validity_days = 2911240 }

abbrev toy : Tokens
toy = tokens (only claim-discrete (claim_of (signing_request 3 request decision) 1000))

abbrev setting : Setting toy pki
setting = record {
  peer_cid = 3;
  config = endless;
  ca = ca;
  ambient = record { clock = ok 1000; jwt_draw = tt; ca_draw = tt; leaf_draw = tt };
}

entitled : IsEntitled toy pki setting request decision
unfolding resolve get text_beq
entitled = record { version_known = refl; resolved = refl; same_cid = refl }

abbrev input : Text
input = dotted (write cap_jwt_header) (write (7 ∷ []))

abbrev jwt : Text
jwt = dotted input (write (signature (codes "fresh key") input))

signed :
    sign toy
      (record { key_pair = codes "fresh key" })
      tt
      (claim_of (signing_request 3 request decision) 1000)
    ≡ ok jwt
unfolding sign map_err ◌>>=◌
signed = rw (only-to_vec claim-discrete (claim_of (signing_request 3 request decision) 1000))

too_long : IsTooLong toy pki setting request decision
unfolding from_pkcs8_der map_err ◌>>=◌
too_long = record {
  now = 1000;
  signer = record { key_pair = codes "fresh key" };
  jwt = jwt;
  csr = record { params = blank; public_key = codes "csr" };
  first_day = 2024;
  clock_read = refl;
  signer_made = refl;
  token_signed = signed;
  csr_parsed = refl;
  begins = refl;
  never_ends = refl;
}

abbrev body : Bytes
body = write_request request

handle_connection_too_long_example :
    (t : Pipe) × (handle_connection toy pki pipe request_json response_json setting
        (piped (frame body))
      ≡ (panicked, t))
    × (t.outgoing ≡ [])
handle_connection_too_long_example =
    handle_connection_too_long toy pki pipe pipe-IsStream pipe-IsLive request_json response_json
      setting request decision body [] (piped (frame body)) tt (read-write_request request)
      (omega arith) (sym (append-nil (frame body))) entitled too_long
