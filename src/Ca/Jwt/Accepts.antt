-- ===== src/Ca/Jwt/Accepts.antt =====
-- Which tokens `verify_cap_jwt` accepts.
use mathlib.Core.List.{append_assoc}
use vm_auth_scope.Base.{◌≡◌, refl, sym, ◌∙◌, ◌↔◌, true, List, [], ◌∷◌, ◌++◌, Bytes, Text, arith}
use vm_auth_scope.Base.Result.{ok}
use vm_auth_scope.Base.Result.Laws.{>>=-eq-ok, map_err-eq-ok, >>=_of_ok, map_err_of_ok}
use vm_auth_scope.Ca.Tokens.{Tokens}
use vm_auth_scope.Ca.Jwt.{dotted, splitn, verify_split, verify_parts, verify_cap_jwt}
use vm_auth_scope.Ca.Jwt.Split.{Lacks, splitn-dotted, splitn-eq}
use vm_auth_scope.Proto.Caps.{CapClaim}

-- Three parts, of which the last signs the first two under the public key and the second decodes to
-- the claim. Nothing is asked of the first part, and nothing of the claim's times.
pub record IsAccepted (K : Tokens) (jwt : Text) (public_key : Bytes) (claim : CapClaim)
    : Type 0 where
  pub header : Text
  pub payload : Text
  pub signature : Text
  pub sig : Bytes
  pub payload_bytes : Bytes
  pub parts : jwt ≡ dotted (dotted header payload) signature
  pub header-Lacks : Lacks b'.' header
  pub payload-Lacks : Lacks b'.' payload
  pub sig_decoded : K.decode signature ≡ ok sig
  pub signed : K.verify public_key (dotted header payload) sig ≡ true
  pub payload_decoded : K.decode payload ≡ ok payload_bytes
  pub parsed : K.claim_json.from_slice payload_bytes ≡ ok claim

pub three_parts : (a b c : Text) → dotted (dotted a b) c ≡ a ++ b'.' ∷ (b ++ b'.' ∷ c)
three_parts a b c = append_assoc a (b'.' ∷ b) (b'.' ∷ c)

module _ (K : Tokens) (public_key : Bytes) (claim : CapClaim) where
  verify_split-parts :
      (l : List Text)
      → verify_split K l public_key ≡ ok claim
      → (a : Text) × (b : Text) × (c : Text) × (l ≡ a ∷ b ∷ c ∷ [])
        × (verify_parts K a b c public_key ≡ ok claim)
  verify_split-parts [] h = absurd (cc h)
  verify_split-parts (a ∷ []) h = absurd (cc h)
  verify_split-parts (a ∷ b ∷ []) h = absurd (cc h)
  verify_split-parts (a ∷ b ∷ c ∷ []) h = (a, b, c, refl, h)
  verify_split-parts (a ∷ b ∷ c ∷ d ∷ l) h = absurd (cc h)

  verify_parts-eq-ok :
      (a b c : Text)
      → verify_parts K a b c public_key ≡ ok claim
      → (sig : Bytes) × (bytes : Bytes) × (K.decode c ≡ ok sig)
        × (K.verify public_key (dotted a b) sig ≡ true)
        × (K.decode b ≡ ok bytes)
        × (K.claim_json.from_slice bytes ≡ ok claim)
  unfolding verify_parts
  verify_parts-eq-ok a b c h =
      let (sig, e₁, h₁) = >>=-eq-ok _ _ h in
      let (_, e₂, h₂) = >>=-eq-ok _ _ h₁ in
      let (bytes, e₃, h₃) = >>=-eq-ok _ _ h₂ in
      (
        sig,
        bytes,
        map_err-eq-ok _ _ e₁,
        ground (arith, e₂),
        map_err-eq-ok _ _ e₃,
        map_err-eq-ok _ _ h₃,
      )

  verify_parts_of :
      (a b c : Text) {sig bytes : Bytes}
      → K.decode c ≡ ok sig
      → K.verify public_key (dotted a b) sig ≡ true
      → K.decode b ≡ ok bytes
      → K.claim_json.from_slice bytes ≡ ok claim
      → verify_parts K a b c public_key ≡ ok claim
  unfolding verify_parts
  verify_parts_of a b c d₁ s d₂ p =
      >>=_of_ok _ _ (map_err_of_ok _ _ d₁)
      ∙ >>=_of_ok _ _ (rw s)
      ∙ >>=_of_ok _ _ (map_err_of_ok _ _ d₂)
      ∙ map_err_of_ok _ _ p

  -- A token is accepted, with a claim, exactly when it is three parts with dots between, the last
  -- the encoding of a signature that verifies over the first two under the public key, and the
  -- second the encoding of JSON that parses to the claim.
  pub verify_cap_jwt_iff :
      (jwt : Text)
      → (verify_cap_jwt K jwt public_key ≡ ok claim) ↔ IsAccepted K jwt public_key claim
  unfolding verify_cap_jwt
  verify_cap_jwt_iff jwt = (sound, complete)
    where
      sound :
          verify_split K (splitn 3 b'.' jwt) public_key ≡ ok claim
          → IsAccepted K jwt public_key claim
      sound h =
          let (a, b, c, e, v) = verify_split-parts (splitn 3 b'.' jwt) h in
          let (whole, la, lb) = splitn-eq b'.' jwt a b c e in
          let (sig, bytes, d₁, s, d₂, p) = verify_parts-eq-ok a b c v in
          record {
            header = a;
            payload = b;
            signature = c;
            sig = sig;
            payload_bytes = bytes;
            parts = whole ∙ sym (three_parts a b c);
            header-Lacks = la;
            payload-Lacks = lb;
            sig_decoded = d₁;
            signed = s;
            payload_decoded = d₂;
            parsed = p;
          }

      complete :
          IsAccepted K jwt public_key claim
          → verify_split K (splitn 3 b'.' jwt) public_key ≡ ok claim
      complete t = rw (t.parts ∙ three_parts t.header t.payload t.signature) (
          rw (splitn-dotted b'.' t.header t.payload t.signature t.header-Lacks t.payload-Lacks) (
            verify_parts_of t.header t.payload t.signature t.sig_decoded t.signed t.payload_decoded
              t.parsed))
