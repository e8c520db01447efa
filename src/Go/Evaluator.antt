-- ===== src/Go/Evaluator.antt =====
-- `NewEvaluator` of libs/go-libs/auth-scope-evaluator/evaluator.go. An error is its text, and a slice
-- out of range panics. `SetBytes` reads a big-endian number.
pub mod Split
pub mod Search
pub mod Verified
pub mod Calm
pub mod Agreed
use vm_auth_scope.Base.{
  ℕ, Bool, true, false, Option, none, some, List, [], ◌∷◌, ◌++◌, Bytes, Text, codes, length, take,
  drop, ltb, ◌==◌, nat_eq, PartialEq, if◌then◌else◌,
}
use vm_auth_scope.Base.Number.{to_text, big_endian}
use vm_auth_scope.Base.Result.{Result, ok, err, panic, ◌>>=◌, ◌>>◌, ok_or}
use vm_auth_scope.Go.Grants.{Evaluator}
use vm_auth_scope.Go.Library.{checked, Extension, AnyKey, ecdsa, other, Library}

abbrev pub cap_extension_oid : List ℕ
cap_extension_oid = 1 ∷ 3 ∷ 6 ∷ 1 ∷ 4 ∷ 1 ∷ 99999 ∷ 1 ∷ []

-- `ObjectIdentifier.Equal`
unfoldable pub oid_equal : List ℕ → List ℕ → Bool
oid_equal [] [] = true
oid_equal (a ∷ oid) (b ∷ oid') = let rest = oid_equal oid oid' in if a == b then rest else false
oid_equal _ _ = false

-- The loop over the extensions: the value of the first with the identifier.
unfoldable pub find_extension : List Extension → Option Bytes
find_extension [] = none
find_extension (ext ∷ exts) =
    let rest = find_extension exts in
    if oid_equal ext.id cap_extension_oid then some ext.value else rest

-- A byte in front of the first part.
unfoldable pub onto_first : ℕ → List Text → List Text
onto_first c [] = (c ∷ []) ∷ []
onto_first c (part ∷ parts) = (c ∷ part) ∷ parts

-- `strings.Split` at a one-byte separator.
unfoldable pub split : ℕ → Text → List Text
split sep [] = [] ∷ []
split sep (c ∷ s) = let rest = split sep s in if c == sep then [] ∷ rest else onto_first c rest

-- `s[:n]` and `s[n:]`. The capacity that bounds the first is at least the length.
unfoldable pub slice_to : Bytes → ℕ → Result Text Bytes
slice_to s n = if ltb (length s) n then panic else ok (take n s)

unfoldable pub slice_from : Bytes → ℕ → Result Text Bytes
slice_from s n = if ltb (length s) n then panic else ok (drop n s)

abbrev pub no_extension : Text
no_extension = codes "capability extension (OID 1.3.6.1.4.1.99999.1) not found in peer certificate"

abbrev pub wrong_length : ℕ → Text
wrong_length n =
    codes "invalid ES256 signature length: got " ++ (to_text n ++ codes ", expected 64")

-- The type assertion of the authority's key.
unfoldable pub ecdsa_key : {Key : Type 0} → AnyKey Key → Result Text Key
ecdsa_key (ecdsa key) = ok key
ecdsa_key other = err (codes "CA public key is not ECDSA")

module _ (G : Library) where
  open G use {
    PublicKey, decode_pem, parse_certificate, unmarshal_octet_string, decode_string, sum256, verify,
    unmarshal_claim,
  }

  -- From the parts of the token to the claim.
  unfoldable pub parse_parts : PublicKey → List Text → Result Text Evaluator
  parse_parts ca_pub_key (header ∷ payload ∷ signature ∷ []) = do
    sig ← checked (λ e. codes "invalid JWT signature encoding: " ++ e) (decode_string signature)
    if length sig == 64 then ok tt else err (wrong_length (length sig))
    let signed_data = header ++ (codes "." ++ payload)
    let hash = sum256 signed_data
    r ← slice_to sig 32
    s ← slice_from sig 32
    if verify ca_pub_key hash (big_endian 0 r) (big_endian 0 s)
        then ok tt
        else err (codes "JWT verification failed: invalid signature")
    payload_bytes ←
        checked (λ e. codes "invalid JWT payload encoding: " ++ e) (decode_string payload)
    claim ←
        checked (λ e. codes "failed to unmarshal JWT payload: " ++ e)
          (unmarshal_claim payload_bytes)
    ok (record { claim = claim })
  parse_parts ca_pub_key _ = err (codes "invalid JWT structure")

  unfoldable pub new_evaluator : Text → Text → Result Text Evaluator
  new_evaluator peer_cert_pem ca_cert_pem = do
    ca_block ← ok_or (decode_pem ca_cert_pem) (codes "failed to decode CA PEM")
    ca_cert ← checked (λ e. codes "failed to parse CA cert: " ++ e) (parse_certificate ca_block)
    ca_pub_key ← ecdsa_key ca_cert.public_key
    peer_block ← ok_or (decode_pem peer_cert_pem) (codes "failed to decode peer PEM")
    peer_cert ←
        checked (λ e. codes "failed to parse peer cert: " ++ e) (parse_certificate peer_block)
    jwt_bytes ← ok_or (find_extension peer_cert.extensions) no_extension
    inner_jwt ←
        checked (λ e. codes "failed to unwrap ASN.1 OCTET STRING: " ++ e)
          (unmarshal_octet_string jwt_bytes)
    parse_parts ca_pub_key (split b'.' inner_jwt)
