-- ===== src/Io.antt =====
-- Errors of the standard library and of `anyhow`, and stateful code that may fail.
pub mod Stream
pub mod Pipe
pub mod Laws
pub mod Files
pub mod Memory
use vm_auth_scope.Base.{Text, codes}
use vm_auth_scope.Base.Number.{ParseIntError, empty, invalid_digit, pos_overflow}
use vm_auth_scope.Base.Result.{Result, ok, err, panic, map_err}

-- `std::io::ErrorKind`, as far as the program asks for it.
pub data ErrorKind : Type 0 where
  addr_in_use unexpected_eof other : ErrorKind

-- `std::io::Error`: its kind and what it displays.
pub record IoError : Type 0 where
  pub kind : ErrorKind
  pub shown : Text

-- `serde_json::Error`: what it displays.
pub record JsonError : Type 0 where
  pub shown : Text

-- `anyhow::Error`
pub data AnyError : Type 0 where
  io : IoError → AnyError
  json : JsonError → AnyError
  parse_int : ParseIntError → AnyError
  message : Text → AnyError
  context : Text → AnyError → AnyError

abbrev parse_int_text : ParseIntError → Text
parse_int_text empty = codes "cannot parse integer from empty string"
parse_int_text invalid_digit = codes "invalid digit found in string"
parse_int_text pos_overflow = codes "number too large to fit in target type"

-- `to_string` shows the outermost context only.
abbrev pub to_string : AnyError → Text
to_string (io e) = e.shown
to_string (json e) = e.shown
to_string (parse_int e) = parse_int_text e
to_string (message m) = m
to_string (context m e) = m

-- A call on a state: what it comes to, and the state that it leaves, also after an error.
abbrev pub Run : Type 0 → Type 0 → Type 0 → Type 0
Run S E A = S → Result E A × S

unfoldable pub follow : {S E A B : Type 0} → (A → Run S E B) → Result E A × S → Result E B × S
follow f (ok a, s) = f a s
follow f (err e, s) = (err e, s)
follow f (panic, s) = (panic, s)

infixl 5 ◌>>=◌ ◌>>◌
unfoldable pub ◌>>=◌ : {S E A B : Type 0} → Run S E A → (A → Run S E B) → Run S E B
unfolding follow
◌>>=◌ m f s = follow f (m s)

abbrev pub ◌>>◌ : {S E B : Type 0} → Run S E (Unit {0}) → Run S E B → Run S E B
m >> k = m >>= λ _. k

-- A call that leaves the state alone.
unfoldable pub lift : {S E A : Type 0} → Result E A → Run S E A
lift r s = (r, s)

-- The `?` operator where it converts the error.
unfoldable pub wrap : {S E F A : Type 0} → (E → F) → Run S E A → Run S F A
wrap f m s = (map_err f (m s).0, (m s).1)
