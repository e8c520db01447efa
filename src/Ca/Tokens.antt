-- ===== src/Ca/Tokens.antt =====
-- What the tokens need of other crates: `ring`, `base64` and `serde_json`, as an interface, with
-- the documented behaviour that the proofs rely on.
use vm_auth_scope.Base.{ℕ, ◌≤◌, ◌≡◌, Bool, true, ◌⊎◌, Bytes, Text, All}
use vm_auth_scope.Base.Result.{Result, ok}
use vm_auth_scope.Proto.Caps.{CapClaim}
use vm_auth_scope.Proto.Json.{Json, IsJson}

-- Errors are what they display. `Draw` is what the system's random generator gives to one call.
pub record Tokens : Type 1 where
  pub EcdsaKeyPair : Type 0
  pub Draw : Type 0
  pub from_pkcs8 : Bytes → Result Text EcdsaKeyPair
  pub sign : EcdsaKeyPair → Draw → Bytes → Result Text Bytes
  pub verify : Bytes → Bytes → Bytes → Bool
  pub encode : Bytes → Text
  pub decode : Text → Result Text Bytes
  pub claim_json : Json CapClaim

-- The URL-safe alphabet of base64, without padding.
abbrev pub IsUrlSafe : ℕ → Type 0
IsUrlSafe c =
    ((b'A' ≤ c) × (c ≤ b'Z'))
    ⊎ (((b'a' ≤ c) × (c ≤ b'z')) ⊎ (((b'0' ≤ c) × (c ≤ b'9')) ⊎ ((c ≡ b'-') ⊎ (c ≡ b'_'))))

-- A signature verifies under the key pair's public key, and base64 and JSON are read back.
pub record IsTokens (K : Tokens) : Type 0 where
  pub public_key : K.EcdsaKeyPair → Bytes
  pub verify-sign :
      (k : K.EcdsaKeyPair) (d : K.Draw) (m s : Bytes)
      → K.sign k d m ≡ ok s
      → K.verify (public_key k) m s ≡ true
  pub decode-encode : (b : Bytes) → K.decode (K.encode b) ≡ ok b
  pub encode-IsUrlSafe : (b : Bytes) → All IsUrlSafe (K.encode b)
  pub claim_json-IsJson : IsJson K.claim_json
