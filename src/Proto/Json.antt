-- ===== src/Proto/Json.antt =====
-- `serde_json` at one type, as an interface: what it writes, it reads back.
pub mod Loaded
use vm_auth_scope.Base.{◌≡◌, Bytes}
use vm_auth_scope.Base.Result.{Result, ok}
use vm_auth_scope.Io.{JsonError}

pub record Json (T : Type 0) : Type 0 where
  pub to_vec : T → Result JsonError Bytes
  pub from_slice : Bytes → Result JsonError T

pub record IsJson {T : Type 0} (J : Json T) : Type 0 where
  pub from_slice-to_vec : (v : T) (b : Bytes) → J.to_vec v ≡ ok b → J.from_slice b ≡ ok v
