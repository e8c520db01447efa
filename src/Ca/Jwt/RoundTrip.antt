-- ===== src/Ca/Jwt/RoundTrip.antt =====
-- A signed token is accepted with the claim that was signed, and is ASCII.
use vm_auth_scope.Base.{ℕ, ◌<◌, ◌≡◌, [], ◌∷◌, Bytes, Text, All, All-append, arith}
use vm_auth_scope.Base.Result.{ok}
use vm_auth_scope.Base.Result.Laws.{>>=-eq-ok, map_err-eq-ok}
use vm_auth_scope.Ca.Tokens.{Tokens, IsTokens, IsUrlSafe}
use vm_auth_scope.Ca.Jwt.{CapJwtSigner, cap_jwt_header, dotted, sign, verify_cap_jwt}
use vm_auth_scope.Ca.Jwt.Split.{Lacks}
use vm_auth_scope.Ca.Jwt.Accepts.{verify_cap_jwt_iff}
use vm_auth_scope.Proto.Caps.{CapClaim}

pub IsUrlSafe-Lacks : (s : Text) → All IsUrlSafe s → Lacks b'.' s
IsUrlSafe-Lacks [] h = tt
IsUrlSafe-Lacks (c ∷ s) h = (omega (arith, h.0), IsUrlSafe-Lacks s h.1)

abbrev pub IsAscii : ℕ → Type 0
IsAscii c = c < 128

IsUrlSafe-IsAscii : (s : Text) → All IsUrlSafe s → All IsAscii s
IsUrlSafe-IsAscii [] h = tt
IsUrlSafe-IsAscii (c ∷ s) h = (omega (arith, h.0), IsUrlSafe-IsAscii s h.1)

module _ (K : Tokens) (L : IsTokens K) where
  open K use {Draw, encode, decode, claim_json}
  open L use {public_key, verify-sign, decode-encode, encode-IsUrlSafe}

  -- What a signature covers, and the token that it gives.
  pub sign-eq-ok :
      (signer : CapJwtSigner K) (draw : Draw) (claim : CapClaim) (jwt : Text)
      → sign K signer draw claim ≡ ok jwt
      → (json sig : Bytes) × (claim_json.to_vec claim ≡ ok json)
        × (K.sign signer.key_pair draw (dotted (encode cap_jwt_header) (encode json)) ≡ ok sig)
        × (jwt ≡ dotted (dotted (encode cap_jwt_header) (encode json)) (encode sig))
  unfolding sign
  sign-eq-ok signer draw claim jwt h =
      let (json, e₁, h₁) = >>=-eq-ok _ _ h in
      let (sig, e₂, h₂) = >>=-eq-ok _ _ h₁ in
      (json, sig, map_err-eq-ok _ _ e₁, map_err-eq-ok _ _ e₂, ground (arith, h₂))

  -- A token that the signer made is accepted under its public key, with the claim that it signed.
  pub verify_cap_jwt-sign :
      (signer : CapJwtSigner K) (draw : Draw) (claim : CapClaim) (jwt : Text)
      → sign K signer draw claim ≡ ok jwt
      → verify_cap_jwt K jwt (public_key signer.key_pair) ≡ ok claim
  verify_cap_jwt-sign signer draw claim jwt h =
      let (json, sig, made, signed, whole) = sign-eq-ok signer draw claim jwt h in
      (verify_cap_jwt_iff K (public_key signer.key_pair) claim jwt).1 (record {
        header = encode cap_jwt_header;
        payload = encode json;
        signature = encode sig;
        sig = sig;
        payload_bytes = json;
        parts = whole;
        header-Lacks = IsUrlSafe-Lacks _ (encode-IsUrlSafe cap_jwt_header);
        payload-Lacks = IsUrlSafe-Lacks _ (encode-IsUrlSafe json);
        sig_decoded = decode-encode sig;
        signed = verify-sign signer.key_pair draw _ sig signed;
        payload_decoded = decode-encode json;
        parsed = L.claim_json-IsJson.from_slice-to_vec claim json made;
      })

  dotted-IsAscii : (a b : Text) → All IsAscii a → All IsAscii b → All IsAscii (dotted a b)
  dotted-IsAscii a b ha hb = All-append IsAscii a (b'.' ∷ b) ha (omega arith, hb)

  -- A signed token is ASCII.
  pub sign-IsAscii :
      (signer : CapJwtSigner K) (draw : Draw) (claim : CapClaim) (jwt : Text)
      → sign K signer draw claim ≡ ok jwt
      → All IsAscii jwt
  sign-IsAscii signer draw claim jwt h =
      let (json, sig, made, signed, whole) = sign-eq-ok signer draw claim jwt h in
      let ascii : (b : Bytes) → All IsAscii (encode b) =
        λ b. IsUrlSafe-IsAscii _ (encode-IsUrlSafe b) in
      rw whole
        (dotted-IsAscii _ _ (dotted-IsAscii _ _ (ascii cap_jwt_header) (ascii json)) (ascii sig))
