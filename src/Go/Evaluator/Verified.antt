-- ===== src/Go/Evaluator/Verified.antt =====
-- What `NewEvaluator` asks of the two certificates.
use mathlib.Core.Path.{ap₂}
use vm_auth_scope.Base.{
  ◌≡◌, ◌↔◌, inl, inr, refl, sym, ap, ◌∙◌, true, false, Option, none, some, List, [], ◌∷◌, Bytes,
  Text, length, take, drop, nat_beq_iff, ltb, arith,
}
use vm_auth_scope.Base.Number.{big_endian}
use vm_auth_scope.Base.Result.{ok, ok_or}
use vm_auth_scope.Base.Result.Laws.{test-eq-ok, ok_injective, >>=-eq-ok, >>=_of_ok}
use vm_auth_scope.Ca.Jwt.{dotted}
use vm_auth_scope.Ca.Jwt.Accepts.{three_parts}
use vm_auth_scope.Ca.Jwt.Split.{Lacks}
use vm_auth_scope.Go.Evaluator.{split, slice_to, slice_from, ecdsa_key, parse_parts, new_evaluator}
use vm_auth_scope.Go.Evaluator.Search.{IsFirst, find_extension_iff}
use vm_auth_scope.Go.Evaluator.Split.{split_three, split-eq}
use vm_auth_scope.Go.Grants.{Evaluator}
use vm_auth_scope.Go.Library.{Returned, checked, AnyKey, ecdsa, other, Certificate, Library}
use vm_auth_scope.Proto.Caps.{CapClaim}

checked-eq-ok :
    {A : Type 0} (f : Text → Text) (r : Returned A) (a : A) → checked f r ≡ ok a → r ≡ inr a
checked-eq-ok f (inl e) a h = absurd (cc h)
checked-eq-ok f (inr b) a h = ap inr (ok_injective h)

checked_of :
    {A : Type 0} (f : Text → Text) (r : Returned A) (a : A) → r ≡ inr a → checked f r ≡ ok a
checked_of f r a h = rw h

ok_or-eq-ok : {A : Type 0} (o : Option A) (e : Text) (a : A) → ok_or o e ≡ ok a → o ≡ some a
ok_or-eq-ok none e a h = absurd (cc h)
ok_or-eq-ok (some b) e a h = ap some (ok_injective h)

ecdsa_key-eq-ok : {Key : Type 0} (k : AnyKey Key) (key : Key) → ecdsa_key k ≡ ok key → k ≡ ecdsa key
unfolding ecdsa_key
ecdsa_key-eq-ok (ecdsa k) key h = ap ecdsa (ok_injective h)
ecdsa_key-eq-ok other key h = absurd (cc h)

module _ (G : Library) where
  open G use {PublicKey}

  -- Three parts without dots, of which the last encodes 64 bytes that sign the first two, and the
  -- second the JSON of the claim.
  pub record IsSigned (key : PublicKey) (jwt : Text) (claim : CapClaim) : Type 0 where
    pub header : Text
    pub payload : Text
    pub signature : Text
    pub sig : Bytes
    pub payload_bytes : Bytes
    pub parts : jwt ≡ dotted (dotted header payload) signature
    pub header-Lacks : Lacks b'.' header
    pub payload-Lacks : Lacks b'.' payload
    pub signature-Lacks : Lacks b'.' signature
    pub sig_decoded : G.decode_string signature ≡ inr sig
    pub sig_length : length sig ≡ 64
    pub signed :
        G.verify key
          (G.sum256 (dotted header payload))
          (big_endian 0 (take 32 sig))
          (big_endian 0 (drop 32 sig))
        ≡ true
    pub payload_decoded : G.decode_string payload ≡ inr payload_bytes
    pub parsed : G.unmarshal_claim payload_bytes ≡ inr claim

  -- A PEM text holds a certificate.
  pub record Holds (pem : Text) (cert : Certificate PublicKey) : Type 0 where
    pub block : Bytes
    pub decoded : G.decode_pem pem ≡ some block
    pub parsed : G.parse_certificate block ≡ inr cert

  -- The peer's first capability extension wraps a token that is signed with the authority's key.
  pub record IsVerified (peer ca : Text) (claim : CapClaim) : Type 0 where
    pub ca_cert : Certificate PublicKey
    pub peer_cert : Certificate PublicKey
    pub key : PublicKey
    pub value : Bytes
    pub jwt : Text
    pub ca_held : Holds ca ca_cert
    pub peer_held : Holds peer peer_cert
    pub same_key : ca_cert.public_key ≡ ecdsa key
    pub found : IsFirst peer_cert.extensions value
    pub unwrapped : G.unmarshal_octet_string value ≡ inr jwt
    pub accepted : IsSigned key jwt claim

  parse_parts-three :
      (key : PublicKey) (l : List Text) (e : Evaluator)
      → parse_parts G key l ≡ ok e
      → (a : Text) × (b : Text) × (c : Text) × (l ≡ a ∷ b ∷ c ∷ [])
  unfolding parse_parts
  parse_parts-three key [] e h = absurd (cc h)
  parse_parts-three key (a ∷ []) e h = absurd (cc h)
  parse_parts-three key (a ∷ b ∷ []) e h = absurd (cc h)
  parse_parts-three key (a ∷ b ∷ c ∷ []) e h = (a, b, c, refl)
  parse_parts-three key (a ∷ b ∷ c ∷ d ∷ l) e h = absurd (cc h)

  slices_of :
      (sig : Bytes)
      → length sig ≡ 64
      → (slice_to sig 32 ≡ ok (take 32 sig)) × (slice_from sig 32 ≡ ok (drop 32 sig))
  unfolding slice_to slice_from
  slices_of sig n =
      let low : ltb (length sig) 32 ≡ false = ground (arith, n) in (rw low refl, rw low refl)

  parse_parts-IsSigned :
      (key : PublicKey) (jwt a b c : Text) (claim : CapClaim)
      → jwt ≡ dotted (dotted a b) c
      → Lacks b'.' a
      → Lacks b'.' b
      → Lacks b'.' c
      → parse_parts G key (a ∷ b ∷ c ∷ []) ≡ ok (record { claim = claim })
      → IsSigned key jwt claim
  unfolding parse_parts
  parse_parts-IsSigned key jwt a b c claim whole la lb lc h =
      let (sig, e₁, h₁) = >>=-eq-ok _ _ h in
      let (_, e₂, h₂) = >>=-eq-ok _ _ h₁ in
      let n : length sig ≡ 64 = (nat_beq_iff (length sig) 64).0 (test-eq-ok _ _ e₂) in
      let (r, e₃, h₃) = >>=-eq-ok _ _ h₂ in
      let (s, e₄, h₄) = >>=-eq-ok _ _ h₃ in
      let (_, e₅, h₅) = >>=-eq-ok _ _ h₄ in
      let (bytes, e₆, h₆) = >>=-eq-ok _ _ h₅ in
      let (c', e₇, h₇) = >>=-eq-ok _ _ h₆ in
      let same_r = ok_injective (sym e₃ ∙ (slices_of sig n).0) in
      let same_s = ok_injective (sym e₄ ∙ (slices_of sig n).1) in
      record {
        header = a;
        payload = b;
        signature = c;
        sig = sig;
        payload_bytes = bytes;
        parts = whole;
        header-Lacks = la;
        payload-Lacks = lb;
        signature-Lacks = lc;
        sig_decoded = checked-eq-ok _ _ sig e₁;
        sig_length = n;
        signed =
            ap₂ (λ x y. G.verify key (G.sum256 (dotted a b)) (big_endian 0 x) (big_endian 0 y))
              (sym same_r) (sym same_s)
            ∙ test-eq-ok _ _ e₅;
        payload_decoded = checked-eq-ok _ _ bytes e₆;
        parsed = checked-eq-ok _ _ c' e₇ ∙ ap (λ (e : Evaluator). inr e.claim) (ok_injective h₇);
      }

  parse_parts_of_IsSigned :
      (key : PublicKey) (claim : CapClaim) (jwt : Text) (i : IsSigned key jwt claim)
      → parse_parts G key (i.header ∷ i.payload ∷ i.signature ∷ []) ≡ ok (record { claim = claim })
  unfolding parse_parts
  parse_parts_of_IsSigned key claim jwt i =
      let (r, s) = slices_of i.sig i.sig_length in
      >>=_of_ok _ _ (checked_of _ _ i.sig i.sig_decoded)
      ∙ >>=_of_ok _ _ (rw ((nat_beq_iff (length i.sig) 64).1 i.sig_length) refl)
      ∙ >>=_of_ok _ _ r
      ∙ >>=_of_ok _ _ s
      ∙ >>=_of_ok _ _ (rw i.signed refl)
      ∙ >>=_of_ok _ _ (checked_of _ _ i.payload_bytes i.payload_decoded)
      ∙ >>=_of_ok _ _ (checked_of _ _ claim i.parsed)

  token-IsSigned :
      (key : PublicKey) (jwt : Text) (claim : CapClaim)
      → parse_parts G key (split b'.' jwt) ≡ ok (record { claim = claim })
      → IsSigned key jwt claim
  token-IsSigned key jwt claim h =
      let (a, b, c, e) = parse_parts-three key (split b'.' jwt) _ h in
      let (whole, la, lb, lc) = split-eq b'.' jwt a b c e in
      parse_parts-IsSigned key jwt a b c claim (whole ∙ sym (three_parts a b c)) la lb lc
        (ap (parse_parts G key) (sym e) ∙ h)

  token_of_IsSigned :
      (key : PublicKey) (jwt : Text) (claim : CapClaim)
      → IsSigned key jwt claim
      → parse_parts G key (split b'.' jwt) ≡ ok (record { claim = claim })
  token_of_IsSigned key jwt claim i =
      ap (λ t. parse_parts G key (split b'.' t))
        (i.parts ∙ three_parts i.header i.payload i.signature)
      ∙ ap (parse_parts G key) (
          split_three b'.' i.header i.payload i.signature i.header-Lacks i.payload-Lacks
            i.signature-Lacks)
      ∙ parse_parts_of_IsSigned key claim jwt i

  new_evaluator-IsVerified :
      (peer ca : Text) (claim : CapClaim)
      → new_evaluator G peer ca ≡ ok (record { claim = claim })
      → IsVerified peer ca claim
  unfolding new_evaluator
  new_evaluator-IsVerified peer ca claim h =
      let (ca_block, e₁, h₁) = >>=-eq-ok _ _ h in
      let (ca_cert, e₂, h₂) = >>=-eq-ok _ _ h₁ in
      let (key, e₃, h₃) = >>=-eq-ok _ _ h₂ in
      let (peer_block, e₄, h₄) = >>=-eq-ok _ _ h₃ in
      let (peer_cert, e₅, h₅) = >>=-eq-ok _ _ h₄ in
      let (value, e₆, h₆) = >>=-eq-ok _ _ h₅ in
      let (jwt, e₇, h₇) = >>=-eq-ok _ _ h₆ in
      record {
        ca_cert = ca_cert;
        peer_cert = peer_cert;
        key = key;
        value = value;
        jwt = jwt;
        ca_held = record {
          block = ca_block;
          decoded = ok_or-eq-ok _ _ ca_block e₁;
          parsed = checked-eq-ok _ _ ca_cert e₂;
        };
        peer_held = record {
          block = peer_block;
          decoded = ok_or-eq-ok _ _ peer_block e₄;
          parsed = checked-eq-ok _ _ peer_cert e₅;
        };
        same_key = ecdsa_key-eq-ok _ key e₃;
        found = (find_extension_iff _ value).0 (ok_or-eq-ok _ _ value e₆);
        unwrapped = checked-eq-ok _ _ jwt e₇;
        accepted = token-IsSigned key jwt claim h₇;
      }

  new_evaluator_of_IsVerified :
      (peer ca : Text) (claim : CapClaim)
      → IsVerified peer ca claim
      → new_evaluator G peer ca ≡ ok (record { claim = claim })
  unfolding new_evaluator ecdsa_key
  new_evaluator_of_IsVerified peer ca claim v =
      >>=_of_ok _ _ (rw v.ca_held.decoded refl)
      ∙ >>=_of_ok _ _ (checked_of _ _ v.ca_cert v.ca_held.parsed)
      ∙ >>=_of_ok _ _ {a = v.key} (rw v.same_key refl)
      ∙ >>=_of_ok _ _ (rw v.peer_held.decoded refl)
      ∙ >>=_of_ok _ _ (checked_of _ _ v.peer_cert v.peer_held.parsed)
      ∙ >>=_of_ok _ _ (rw ((find_extension_iff _ v.value).1 v.found) refl)
      ∙ >>=_of_ok _ _ (checked_of _ _ v.jwt v.unwrapped)
      ∙ token_of_IsSigned v.key v.jwt claim v.accepted

  -- `NewEvaluator` takes a claim exactly when both texts hold certificates, the authority's key is of
  -- ECDSA, and the first capability extension of the peer's wraps a token of three parts whose last
  -- decodes to 64 bytes that verify as the two halves of a signature of the first two under that
  -- key, and whose second decodes to the claim's JSON.
  pub new_evaluator_iff :
      (peer ca : Text) (claim : CapClaim)
      → (new_evaluator G peer ca ≡ ok (record { claim = claim })) ↔ IsVerified peer ca claim
  new_evaluator_iff peer ca claim =
      (new_evaluator-IsVerified peer ca claim, new_evaluator_of_IsVerified peer ca claim)
