-- ===== src/Ca/Error.antt =====
-- libs/rust-libs/auth-scope-ca/src/error.rs
use vm_auth_scope.Base.{Text, codes, ◌++◌}
use vm_auth_scope.Io.{IoError, JsonError}

-- `rcgen::Error`: what it displays.
pub record RcgenError : Type 0 where
  pub shown : Text

pub data CaError : Type 0 where
  key_not_found cert_not_found : Text → IoError → CaError
  key_parse_failed cert_parse_failed : Text → CaError
  rcgen_error : RcgenError → CaError
  ring_error : Text → CaError
  jwt_error : Text → CaError
  io : IoError → CaError
  serde_error : JsonError → CaError

-- The `#[error]` texts.
abbrev pub display : CaError → Text
display (key_not_found path source) =
    codes "CA key file not found at " ++ (path ++ (codes ": " ++ source.shown))
display (cert_not_found path source) =
    codes "CA cert file not found at " ++ (path ++ (codes ": " ++ source.shown))
display (key_parse_failed e) = codes "failed to parse CA key PEM: " ++ e
display (cert_parse_failed e) = codes "failed to parse CA cert PEM: " ++ e
display (rcgen_error e) = codes "certificate generation error: " ++ e.shown
display (ring_error e) = codes "ring crypto error: " ++ e
display (jwt_error e) = codes "JWT build error: " ++ e
display (io e) = codes "I/O error: " ++ e.shown
display (serde_error e) = codes "serialisation error: " ++ e.shown
