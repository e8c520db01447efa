-- ===== src/Server/Config/Loaded.antt =====
-- Which configurations `from_file` accepts.
use vm_auth_scope.Base.{◌≡◌, ◌↔◌, Text}
use vm_auth_scope.Base.Result.{Result, ok}
use vm_auth_scope.Io.{IoError}
use vm_auth_scope.Proto.Json.{Json}
use vm_auth_scope.Proto.Json.Loaded.{IsLoaded, loading_iff}
use vm_auth_scope.Server.Config.{HostConfig, port_refused, from_file}

-- `HostConfig::from_file` gives a configuration exactly when the file can be read, its text parses to
-- that configuration, and the server's port in it is below 1000.
pub from_file_iff :
    (J : Json HostConfig) (read_to_string : Text → Result IoError Text) (path : Text)
    (cfg : HostConfig)
    → (from_file J read_to_string path ≡ ok cfg)
      ↔ IsLoaded J (λ c. c.server_port) port_refused read_to_string path cfg
unfolding from_file
from_file_iff J read_to_string path cfg =
    loading_iff J (λ c. c.server_port) port_refused read_to_string path cfg
