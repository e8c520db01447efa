-- ===== src/Evaluator/Certificate/Exact.antt =====
-- What `from_cert_pem` asks of the peer's extensions.
use mathlib.Core.Option.{some-injective}
use mathlib.Core.Path.{subst}
use vm_auth_scope.Base.{
  ℕ, ◌<◌, ◌≡◌, ◌≢◌, ◌↔◌, refl, sym, ap, ◌∙◌, inl, inr, true, Bool-cases, Option, none, some, List,
  [], ◌∷◌, ◌++◌, Bytes, Text, All, All-append_right, text_beq, text_beq_iff,
}
use vm_auth_scope.Base.Utf8.{is_utf8}
use vm_auth_scope.Base.Result.{ok, ◌>>=◌, expect}
use vm_auth_scope.Base.Result.Laws.{ok_injective, >>=_of_ok}
use vm_auth_scope.Ca.Jwt.{cap_extension_oid}
use vm_auth_scope.Ca.Jwt.Accepts.{IsAccepted}
use vm_auth_scope.Ca.Tokens.{Tokens}
use vm_auth_scope.Evaluator.Certificate.{find_capability, from_cert_pem}
use vm_auth_scope.Evaluator.Certificate.Vouched.{Holds, from_cert_pem_of_Holds, from_cert_pem_iff}
use vm_auth_scope.Evaluator.OctetString.Exact.{IsWrapped, unwrap_octet_string_iff}
use vm_auth_scope.Evaluator.X509.{Extension, X509Certificate, X509}
use vm_auth_scope.Proto.Caps.{CapClaim}

-- The identifier fits 64 bits, and is not that of capabilities.
pub record IsOther (e : Extension) : Type 0 where
  pub arcs : List ℕ
  pub shown : e.oid ≡ some arcs
  pub differs : arcs ≢ cap_extension_oid

-- The first extension with the identifier of capabilities has the value.
pub record IsFirst (exts : List Extension) (value : Bytes) : Type 0 where
  pub front : List Extension
  pub back : List Extension
  pub split : exts ≡ front ++ record { oid = some cap_extension_oid; value = value } ∷ back
  pub others : All IsOther front

find_capability-IsFirst :
    (exts : List Extension) (value : Bytes)
    → find_capability exts ≡ ok (some value)
    → IsFirst exts value
unfolding find_capability ◌>>=◌ expect
find_capability-IsFirst [] value h = absurd (cc h)
find_capability-IsFirst (e ∷ exts) value h = by_oid (find_capability-IsFirst exts value) e.oid refl
  where
    by_oid :
        (find_capability exts ≡ ok (some value) → IsFirst exts value)
        → (o : Option (List ℕ)) → e.oid ≡ o
        → IsFirst (e ∷ exts) value
    by_oid later none none_given = absurd (cc (rw none_given at h))
    by_oid later (some arcs) given = elim (Bool-cases (text_beq arcs cap_extension_oid)) [
      | inl same ↦ record {
        front = [];
        back = exts;
        split =
            ap (λ (x : Extension). x ∷ exts)
              (cc (
                given,
                (text_beq_iff arcs cap_extension_oid).0 same,
                some-injective e.value value (ok_injective (rw (given, same) at h)),
              ));
        others = tt;
      }
      | inr differs ↦
          let f = later (rw (given, differs) at h) in
          record {
            front = e ∷ f.front;
            back = f.back;
            split = ap (λ l. e ∷ l) f.split;
            others = (
              record {
                arcs = arcs;
                shown = given;
                differs = λ same. cc (differs, (text_beq_iff arcs cap_extension_oid).1 same);
              },
              f.others,
            );
          }
    ]

find_capability_front :
    (front back : List Extension) (value : Bytes)
    → All IsOther front
    → find_capability (front ++ record { oid = some cap_extension_oid; value = value } ∷ back)
      ≡ ok (some value)
unfolding find_capability ◌>>=◌ expect
find_capability_front [] back value h =
    rw ((text_beq_iff cap_extension_oid cap_extension_oid).1 refl)
find_capability_front (e ∷ front) back value (o, h) =
    elim (Bool-cases (text_beq o.arcs cap_extension_oid)) [
      | inl same ↦ absurd (o.differs ((text_beq_iff o.arcs cap_extension_oid).0 same))
      | inr differs ↦ rw (o.shown, differs) (find_capability_front front back value h)
    ]

find_capability_of_IsFirst :
    (exts : List Extension) (value : Bytes)
    → IsFirst exts value
    → find_capability exts ≡ ok (some value)
find_capability_of_IsFirst exts value f =
    ap find_capability f.split ∙ find_capability_front f.front f.back value f.others

-- An extension's value is of bytes.
pub record IsOfBytes (e : Extension) : Type 0 where
  pub bytes : All (λ b. b < 256) e.value

module _ (X : X509) (K : Tokens) where
  -- Both texts hold certificates, and the peer's first capability extension is the tag and the
  -- length of a token, the token and any bytes behind it, where the token is UTF-8 and accepted
  -- under the key of the authority's certificate.
  pub record IsProven (peer ca : Text) (claim : CapClaim) : Type 0 where
    pub ca_cert : X509Certificate
    pub peer_cert : X509Certificate
    pub value : Bytes
    pub jwt : Text
    pub ca_held : Holds X ca ca_cert
    pub peer_held : Holds X peer peer_cert
    pub found : IsFirst peer_cert.extensions value
    pub wrapped : IsWrapped value jwt
    pub utf8 : is_utf8 jwt ≡ true
    pub accepted : IsAccepted K jwt ca_cert.subject_public_key claim

  -- A claim is evaluated exactly when both texts hold certificates and the first extension of the
  -- peer's with the capability identifier, all before it having other identifiers, begins with an
  -- OCTET STRING whose content is UTF-8 and a token that is accepted with that claim under the key
  -- of the authority's. The values of the peer's extensions are bytes.
  pub from_cert_pem-IsProven_iff :
      (peer ca : Text) (claim : CapClaim)
      → ((cert : X509Certificate) → Holds X peer cert → All IsOfBytes cert.extensions)
      → (from_cert_pem X K peer ca ≡ ok (record { claim = claim })) ↔ IsProven peer ca claim
  from_cert_pem-IsProven_iff peer ca claim of_bytes = (sound, complete)
    where
      value_bytes :
          (cert : X509Certificate) (value : Bytes)
          → Holds X peer cert
          → IsFirst cert.extensions value
          → All (λ b. b < 256) value
      value_bytes cert value held f =
          (All-append_right IsOfBytes f.front _
            (subst (All IsOfBytes) f.split (of_bytes cert held))).0.bytes

      sound : from_cert_pem X K peer ca ≡ ok (record { claim = claim }) → IsProven peer ca claim
      sound h =
          let v = (from_cert_pem_iff X K peer ca claim).0 h in
          let first = find_capability-IsFirst v.peer_cert.extensions v.value v.found in
          record {
            ca_cert = v.ca_cert;
            peer_cert = v.peer_cert;
            value = v.value;
            jwt = v.jwt;
            ca_held = v.ca_held;
            peer_held = v.peer_held;
            found = first;
            wrapped =
                ((unwrap_octet_string_iff v.value
                      (value_bytes v.peer_cert v.value v.peer_held first)).0
                    v.jwt).0
                  v.unwrapped;
            utf8 = v.utf8;
            accepted = v.accepted;
          }

      complete : IsProven peer ca claim → from_cert_pem X K peer ca ≡ ok (record { claim = claim })
      complete p = (from_cert_pem_iff X K peer ca claim).1 (record {
        ca_cert = p.ca_cert;
        peer_cert = p.peer_cert;
        value = p.value;
        jwt = p.jwt;
        ca_held = p.ca_held;
        peer_held = p.peer_held;
        found = find_capability_of_IsFirst p.peer_cert.extensions p.value p.found;
        unwrapped =
            ((unwrap_octet_string_iff p.value
                  (value_bytes p.peer_cert p.value p.peer_held p.found)).0
                p.jwt).1
              p.wrapped;
        utf8 = p.utf8;
        accepted = p.accepted;
      })

  -- Two peer certificates whose first capability extensions have the same value are evaluated
  -- alike, claims, errors and panics included, whatever their own keys and other extensions are.
  pub from_cert_pem_same_value :
      (peer peer' ca : Text) (cert cert' ca_cert : X509Certificate) (value : Bytes)
      → Holds X peer cert
      → Holds X peer' cert'
      → Holds X ca ca_cert
      → IsFirst cert.extensions value
      → IsFirst cert'.extensions value
      → from_cert_pem X K peer ca ≡ from_cert_pem X K peer' ca
  from_cert_pem_same_value peer peer' ca cert cert' ca_cert value hp hp' hc f f' =
      from_cert_pem_of_Holds X K peer ca cert ca_cert hp hc
      ∙ >>=_of_ok _ _ (find_capability_of_IsFirst cert.extensions value f)
      ∙ sym (>>=_of_ok _ _ (find_capability_of_IsFirst cert'.extensions value f'))
      ∙ sym (from_cert_pem_of_Holds X K peer' ca cert' ca_cert hp' hc)
