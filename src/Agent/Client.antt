-- ===== src/Agent/Client.antt =====
-- `request_cert` of apps/rust-apps/auth-scope-agent/src/client.rs. Connecting is a parameter: it moves
-- the network to a state in which the stream is the new connection. The agent's `main` gives it
-- `stream_to` of Agent/Dial.
pub mod Requested
use vm_auth_scope.Base.{ℕ, Option, none, some, [], ◌∷◌, ◌++◌, Text, codes}
use vm_auth_scope.Base.Number.{from_str_radix}
use vm_auth_scope.Base.Result.{Result, ok, err, panic, map_err}
use vm_auth_scope.Agent.Config.{AgentConfig, EntityEntry}
use vm_auth_scope.Agent.Csr.{GeneratedCsr, generate_csr}
use vm_auth_scope.Agent.Store.{store_entity_credentials}
use vm_auth_scope.Ca.Pki.{Pki}
use vm_auth_scope.Io.{AnyError, message, context, Run, ◌>>=◌, ◌>>◌, lift, wrap}
use vm_auth_scope.Io.Files.{Files}
use vm_auth_scope.Io.Stream.{Stream}
use vm_auth_scope.Proto.Codec.{send_json, recv_json}
use vm_auth_scope.Proto.Json.{Json}
use vm_auth_scope.Proto.Wire.{protocol_version, CertRequest, CertResponse, issued, error}

-- The variable `VSOCK_HOST_CID`, where it is set to a number.
unfoldable pub host_cid : Option Text → ℕ
host_cid none = 2
host_cid (some s) = elim (from_str_radix s 10) [ ok n ↦ n | _ ↦ 2 ]

abbrev pub rejected : EntityEntry → Text → AnyError
rejected entity text =
    message (codes "Server rejected request for '" ++ (entity.name ++ (codes "': " ++ text)))

abbrev pub cert_request : AgentConfig → EntityEntry → GeneratedCsr → CertRequest
cert_request config entity generated = record {
  version = protocol_version;
  vm_name = config.vm_name;
  entity = entity.name;
  csr_pem = generated.csr_pem;
}

module _ {D S : Type 0} where
  -- A call on the disk, or on the network, as one on both.
  unfoldable pub on_disk : {E A : Type 0} → Run D E A → Run (D × S) E A
  on_disk m (d, s) = let (r, d') = m d in (r, (d', s))

  unfoldable pub on_network : {E A : Type 0} → Run S E A → Run (D × S) E A
  on_network m (d, s) = let (r, s') = m s in (r, (d, s'))

module _ (P : Pki) (S : Stream) (F : Files) (Q : Json CertRequest) (R : Json CertResponse)
    (connect : ℕ → ℕ → ℕ → Run S.State AnyError (Unit {0})) where
  open S use {State}
  open F use {Disk}

  -- The match on the response.
  unfoldable pub settle : EntityEntry → GeneratedCsr → CertResponse → Run Disk AnyError (Unit {0})
  settle entity generated (issued cert_pem ca_cert_pem) =
      store_entity_credentials F entity cert_pem generated.key_pem ca_cert_pem
  settle entity generated (error text) = lift (err (rejected entity text))

  -- From the connection to the response.
  unfoldable pub exchange :
      ℕ → AgentConfig → EntityEntry → GeneratedCsr → Run State AnyError CertResponse
  exchange cid config entity generated = do
    wrap (context (codes "vsock connect with local port failed"))
        (connect cid config.server_port config.client_port)
    wrap (context (codes "sending CertRequest"))
        (send_json S Q (cert_request config entity generated))
    wrap (context (codes "receiving CertResponse")) (recv_json S R)

  unfoldable pub request_cert :
      Option Text
      → AgentConfig
      → EntityEntry
      → P.Draw
      → P.Draw
      → Run (Disk × State) AnyError (Unit {0})
  request_cert variable config entity key_draw csr_draw = do
    generated ← lift (
        map_err (context (codes "CSR generation for entity '" ++ (entity.name ++ codes "'")))
          (generate_csr P entity.name key_draw csr_draw))
    resp ← on_network (exchange (host_cid variable) config entity generated)
    on_disk (settle entity generated resp)
