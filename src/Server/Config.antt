-- ===== src/Server/Config.antt =====
-- apps/rust-apps/auth-scope-server/src/config.rs. A `HashMap` is a list of keys and values, of which
-- the first with the key counts.
pub mod Loaded
pub mod Order
use vm_auth_scope.Base.{
  ℕ, Option, none, some, List, [], ◌∷◌, ◌++◌, Text, codes, leb, ◌==◌, text_eq, if◌then◌else◌,
}
use vm_auth_scope.Base.Number.{to_text}
use vm_auth_scope.Base.Result.{Result, ok, err, ◌>>=◌, map_err}
use vm_auth_scope.Io.{AnyError, IoError, io, json, message}
use vm_auth_scope.Proto.Caps.{Capability}
use vm_auth_scope.Proto.Json.{Json}

abbrev pub HashMap : Type 0 → Type 0
HashMap V = List (Text × V)

unfoldable pub get : {V : Type 0} → HashMap V → Text → Option V
get [] key = none
get ((k, v) ∷ entries) key = if k == key then some v else get entries key

pub record EntityPolicy : Type 0 where
  pub caps : List Capability
  pub validity_days : Option ℕ

pub record VmEntry : Type 0 where
  pub vm_cid : ℕ
  pub entities : HashMap EntityPolicy

pub record HostConfig : Type 0 where
  pub ca_cert_path : Text
  pub ca_key_path : Text
  pub server_port : ℕ
  pub cert_validity_days : ℕ
  pub vms : HashMap VmEntry
  pub peer_port : ℕ

abbrev pub default_server_port : ℕ
default_server_port = 900

abbrev pub default_validity_days : ℕ
default_validity_days = 365

abbrev pub default_peer_port : ℕ
default_peer_port = 901

abbrev pub port_refused : ℕ → AnyError
port_refused port = message (codes "server_port must be less than 1000, got " ++ to_text port)

-- `from_file`, over what reading the file gives.
unfoldable pub from_file :
    Json HostConfig → (Text → Result IoError Text) → Text → Result AnyError HostConfig
from_file J read_to_string path = do
  contents ← map_err io (read_to_string path)
  cfg ← map_err json (J.from_slice contents)
  if leb 1000 cfg.server_port then err (port_refused cfg.server_port) else ok cfg
