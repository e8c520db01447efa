-- ===== src/Proto/Codec.antt =====
-- libs/rust-libs/auth-scope-proto/src/codec.rs: a frame is a four-byte big-endian length and a JSON
-- payload.
pub mod Words
pub mod Frames
pub mod RoundTrip
pub mod Bounds
use vm_auth_scope.Base.{
  ℕ, ◌+◌, ◌*◌, ◌/◌, ◌%◌, ◌^◌, List, [], ◌∷◌, ◌++◌, Bytes, codes, length, ltb, if◌then◌else◌,
}
use vm_auth_scope.Base.Number.{to_text}
use vm_auth_scope.Base.Result.{Result, ok, err, panic, map_err}
use vm_auth_scope.Io.{AnyError, io, json, message, Run, ◌>>=◌, ◌>>◌, lift, wrap}
use vm_auth_scope.Io.Stream.{Stream}
use vm_auth_scope.Proto.Json.{Json}

abbrev pub max_msg_bytes : ℕ
max_msg_bytes = 4 * 1024 * 1024

-- `u32::to_be_bytes` and `u32::from_be_bytes`
unfoldable pub to_be_bytes : ℕ → Bytes
to_be_bytes n = (n / 2 ^ 24 % 256) ∷ (n / 2 ^ 16 % 256) ∷ (n / 2 ^ 8 % 256) ∷ (n % 256) ∷ []

unfoldable pub from_be_bytes : Bytes → ℕ
from_be_bytes (a ∷ b ∷ c ∷ d ∷ _) = ((a * 256 + b) * 256 + c) * 256 + d
from_be_bytes _ = 0

abbrev pub too_large : ℕ → AnyError
too_large len = message (
    codes "incoming frame too large: "
    ++ to_text len
    ++ codes " bytes (max "
    ++ to_text max_msg_bytes
    ++ codes ")")

module _ {T : Type 0} (S : Stream) (J : Json T) where
  open S use {State, read_exact, write_all, flush}

  -- `payload.len() as u32` keeps the low 32 bits.
  unfoldable pub send_payload : Bytes → Run State AnyError (Unit {0})
  send_payload payload = do
    let len = length payload % 2 ^ 32
    wrap io (write_all (to_be_bytes len))
    wrap io (write_all payload)
    wrap io flush

  unfoldable pub send_json : T → Run State AnyError (Unit {0})
  send_json value = do payload ← lift (map_err json (J.to_vec value)); send_payload payload

  -- The part of `recv_json` after the length.
  unfoldable pub recv_payload : ℕ → Run State AnyError T
  recv_payload len =
      if ltb max_msg_bytes len
      then lift (err (too_large len))
      else do buf ← wrap io (read_exact len); lift (map_err json (J.from_slice buf))

  unfoldable pub recv_json : Run State AnyError T
  recv_json = do len_buf ← wrap io (read_exact 4); recv_payload (from_be_bytes len_buf)
