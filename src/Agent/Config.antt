-- ===== src/Agent/Config.antt =====
-- apps/rust-apps/auth-scope-agent/src/config.rs. Paths are their texts; serde applies the defaults.
pub mod Loaded
use vm_auth_scope.Base.{ℕ, List, ◌++◌, Text, codes, leb, if◌then◌else◌}
use vm_auth_scope.Base.Number.{to_text}
use vm_auth_scope.Base.Result.{Result, ok, err, ◌>>=◌, map_err}
use vm_auth_scope.Io.{AnyError, IoError, io, json, message}
use vm_auth_scope.Proto.Json.{Json}

pub record EntityEntry : Type 0 where
  pub name : Text
  pub cert_path : Text
  pub key_path : Text
  pub ca_path : Text
  pub owner_uid : ℕ
  pub owner_gid : ℕ
  pub cert_mode : Text
  pub key_mode : Text

pub record AgentConfig : Type 0 where
  pub vm_name : Text
  pub server_port : ℕ
  pub entities : List EntityEntry
  pub client_port : ℕ

abbrev pub default_server_port : ℕ
default_server_port = 900

abbrev pub default_client_port : ℕ
default_client_port = 901

abbrev pub default_cert_mode : Text
default_cert_mode = codes "0640"

abbrev pub default_key_mode : Text
default_key_mode = codes "0600"

abbrev pub port_too_large : ℕ → AnyError
port_too_large port = message (codes "server_port must be less than 1000, got " ++ to_text port)

-- `from_file`, over what reading the file gives.
unfoldable pub from_file :
    Json AgentConfig → (Text → Result IoError Text) → Text → Result AnyError AgentConfig
from_file J read_to_string path = do
  contents ← map_err io (read_to_string path)
  cfg ← map_err json (J.from_slice contents)
  if leb 1000 cfg.server_port then err (port_too_large cfg.server_port) else ok cfg
