-- ===== src/Ca/Jwt.antt =====
-- libs/rust-libs/auth-scope-ca/src/jwt.rs
pub mod Split
pub mod Accepts
pub mod RoundTrip
use mathlib.Core.Option
use vm_auth_scope.Base.{
  ℕ, zero, suc, ◌≡◌, refl, Option, none, some, List, [], ◌∷◌, ◌++◌, Bytes, Text, codes, ◌==◌,
  nat_eq, if◌then◌else◌,
}
use vm_auth_scope.Base.Result.{Result, ok, err, ◌>>=◌, ◌>>◌, map_err}
use vm_auth_scope.Ca.Error.{CaError, jwt_error, ring_error, serde_error}
use vm_auth_scope.Ca.Tokens.{Tokens}
use vm_auth_scope.Proto.Caps.{CapClaim}

abbrev pub cap_jwt_header : Text
cap_jwt_header = codes "{\"alg\":\"ES256\",\"typ\":\"CAP\"}"

abbrev pub cap_extension_oid : List ℕ
cap_extension_oid = 1 ∷ 3 ∷ 6 ∷ 1 ∷ 4 ∷ 1 ∷ 99999 ∷ 1 ∷ []

-- `format!("{}.{}", a, b)`
abbrev pub dotted : Text → Text → Text
dotted a b = a ++ b'.' ∷ b

-- The text before the first separator and the text behind it.
unfoldable pub split_once : ℕ → Text → Option (Text × Text)
split_once sep [] = none
split_once sep (c ∷ s) =
    if c == sep then some ([], s) else Option.map (λ (a, b). (c ∷ a, b)) (split_once sep s)

-- `str::splitn`
unfoldable pub splitn : ℕ → ℕ → Text → List Text
splitn zero sep s = []
splitn (suc zero) sep s = s ∷ []
splitn (suc (suc n)) sep s = elim (split_once sep s) [
  | none ↦ s ∷ []
  | some (a, b) ↦ a ∷ splitn (suc n) sep b
]

module _ (K : Tokens) where
  open K use {EcdsaKeyPair, Draw, encode, decode, claim_json}

  -- The handle of the random generator has no state of its own; each call is given its draw.
  pub record CapJwtSigner : Type 0 where
    pub key_pair : EcdsaKeyPair

  unfoldable pub from_pkcs8_der : Bytes → Result CaError CapJwtSigner
  from_pkcs8_der key_der = do
    key_pair ← map_err ring_error (K.from_pkcs8 key_der)
    ok (record { key_pair = key_pair })

  unfoldable pub sign : CapJwtSigner → Draw → CapClaim → Result CaError Text
  sign signer draw claim = do
    let header_b64 = encode cap_jwt_header
    payload_json ← map_err serde_error (claim_json.to_vec claim)
    let payload_b64 = encode payload_json
    let signing_input = dotted header_b64 payload_b64
    sig ← map_err jwt_error (K.sign signer.key_pair draw signing_input)
    ok (dotted signing_input (encode sig))

  -- `verify_cap_jwt` on the three parts.
  unfoldable pub verify_parts : Text → Text → Text → Bytes → Result CaError CapClaim
  verify_parts header payload signature public_key = do
    let signing_input = dotted header payload
    sig ← map_err (λ e. jwt_error (codes "bad signature base64: " ++ e)) (decode signature)
    if K.verify public_key signing_input sig
        then ok tt
        else err (jwt_error (codes "JWT signature verification failed"))
    payload_bytes ← map_err (λ e. jwt_error (codes "bad payload base64: " ++ e)) (decode payload)
    map_err serde_error (claim_json.from_slice payload_bytes)

  abbrev pub verify_split : List Text → Bytes → Result CaError CapClaim
  verify_split (header ∷ payload ∷ signature ∷ []) public_key =
      verify_parts header payload signature public_key
  verify_split _ public_key = err (jwt_error (codes "invalid JWT structure"))

  unfoldable pub verify_cap_jwt : Text → Bytes → Result CaError CapClaim
  unfolding splitn split_once
  verify_cap_jwt jwt public_key = verify_split (splitn 3 b'.' jwt) public_key
