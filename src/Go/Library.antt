-- ===== src/Go/Library.antt =====
-- What the evaluator in Go needs of pem, x509, asn1, base64, sha256, ecdsa and json, as an interface,
-- and the parts of the language that it uses.
use vm_auth_scope.Base.{ℕ, ◌⊎◌, inl, inr, Bool, Option, List, Bytes, Text}
use vm_auth_scope.Base.Result.{Result, ok, err}
use vm_auth_scope.Proto.Caps.{CapClaim}

-- A call that gives a value or an error, which is its text.
abbrev pub Returned : Type 0 → Type 0
Returned A = Text ⊎ A

-- `if err != nil { return nil, … }`
abbrev pub checked : {A : Type 0} → (Text → Text) → Returned A → Result Text A
checked f (inl e) = err (f e)
checked f (inr a) = ok a

-- `pkix.Extension`
pub record Extension : Type 0 where
  pub id : List ℕ
  pub value : Bytes

-- The key of a certificate is of type `*ecdsa.PublicKey`, or of another.
pub data AnyKey (PublicKey : Type 0) : Type 0 where
  ecdsa : PublicKey → AnyKey PublicKey
  other : AnyKey PublicKey

-- `x509.Certificate`, as far as it is read. The parser gives an extension a value that is not nil.
pub record Certificate (PublicKey : Type 0) : Type 0 where
  pub public_key : AnyKey PublicKey
  pub extensions : List Extension

-- `decode_pem` gives the bytes of the first block; `unmarshal_octet_string` is `asn1.Unmarshal` into
-- bytes, which leaves what is behind the string; `decode_string` is that of `base64.RawURLEncoding`.
pub record Library : Type 1 where
  pub PublicKey : Type 0
  pub decode_pem : Text → Option Bytes
  pub parse_certificate : Bytes → Returned (Certificate PublicKey)
  pub unmarshal_octet_string : Bytes → Returned Bytes
  pub decode_string : Text → Returned Bytes
  pub sum256 : Bytes → Bytes
  pub verify : PublicKey → Bytes → ℕ → ℕ → Bool
  pub unmarshal_claim : Bytes → Returned CapClaim
