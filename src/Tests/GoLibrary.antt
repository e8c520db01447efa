-- ===== src/Tests/GoLibrary.antt =====
-- A toy of Go's library that reads what the toy crates write, and the evaluator in Go at concrete
-- inputs.
use mathlib.Core.List.{append-nil}
use mathlib.Core.Path.{subst}
use vm_auth_scope.Base.{
  ℕ, zero, suc, ◌≡◌, ◌≢◌, ◌↔◌, inl, inr, refl, sym, ap, ◌∙◌, Bool, true, false, some, List, [], ◌∷◌,
  ◌++◌, map, Bytes, Text, codes, length, take, drop, take-length, drop-length, All, nat_beq,
  nat_beq_iff, arith, if◌then◌else◌,
}
use vm_auth_scope.Base.Number.{big_endian}
use vm_auth_scope.Base.Result.{Result, ok, panic, ◌>>=◌, map_err}
use vm_auth_scope.Base.Result.Laws.{ok_injective}
use vm_auth_scope.Ca.Jwt.{CapJwtSigner, from_pkcs8_der}
use vm_auth_scope.Ca.Pki.{CustomExtension}
use vm_auth_scope.Ca.Signing.{claim_of}
use vm_auth_scope.Evaluator.Grants as Rust
use vm_auth_scope.Evaluator.OctetString.{unwrap_octet_string}
use vm_auth_scope.Evaluator.OctetString.Standard.{unwrap_octet_string-IsOctetString}
use vm_auth_scope.Go.Evaluator.{cap_extension_oid, new_evaluator}
use vm_auth_scope.Go.Evaluator.Agreed.{shown, IsCompatible, IsHeld, IsAgreed, sign_csr-IsAgreed}
use vm_auth_scope.Go.Evaluator.Calm.{new_evaluator-calm}
use vm_auth_scope.Go.Evaluator.Verified.{Holds, IsVerified, new_evaluator_iff}
use vm_auth_scope.Go.Grants.{can_call_rpc, can_access_path}
use vm_auth_scope.Go.Grants.Same.{grants_same}
use vm_auth_scope.Go.Library.{Returned, Extension, ecdsa, Certificate, Library}
use vm_auth_scope.Tests.Crates.{
  read, read-write, length-fit, signature, leaf_text, pki, pki-IsReadable, x509,
}
use vm_auth_scope.Tests.Keys.{
  claim_json, claim_json-IsJson, toy, toy-IsTokens, ca_pem, ca, ca-IsKeyed, ambient, order,
  order_signed, tokens_short, pem,
}

abbrev returned : {E A : Type 0} → Result E A → Returned A
returned (ok a) = inr a
returned _ = inl (codes "refused")

returned_of : {E A : Type 0} (r : Result E A) (a : A) → r ≡ ok a → returned r ≡ inr a
returned_of r a h = rw h

abbrev parse : Bytes → Returned (Certificate Bytes)
parse [] = inl (codes "no certificate")
parse (zero ∷ key) = inr (record { public_key = ecdsa key; extensions = [] })
parse (suc n ∷ rest) = inr (record {
  public_key = ecdsa (codes "leaf key");
  extensions = record { id = take n rest; value = drop n rest } ∷ [];
})

abbrev verify : Bytes → Bytes → ℕ → ℕ → Bool
verify key m r s =
    if nat_beq r (big_endian 0 (take 32 (signature key m)))
    then nat_beq s (big_endian 0 (drop 32 (signature key m)))
    else false

abbrev go : Library
go = record {
  PublicKey = Bytes;
  decode_pem = some;
  parse_certificate = parse;
  unmarshal_octet_string = λ b. returned (unwrap_octet_string b);
  decode_string = λ t. returned (read t);
  sum256 = λ b. b;
  verify = verify;
  unmarshal_claim = λ b. returned (claim_json.from_slice b);
}

nat_beq-same : (n : ℕ) → nat_beq n n ≡ true
nat_beq-same n = (nat_beq_iff n n).1 refl

verify_signature :
    (key m : Bytes)
    → verify key m
        (big_endian 0 (take 32 (signature key m)))
        (big_endian 0 (drop 32 (signature key m)))
      ≡ true
verify_signature key m = rw (nat_beq-same _, nat_beq-same _) refl

leaf_parsed :
    (exts : List CustomExtension) (leaf : Text)
    → leaf_text exts ≡ ok leaf
    → (cert : Certificate Bytes) × (front back : List Extension) × Holds go leaf cert
      × All (λ (e : Extension). e.id ≢ cap_extension_oid) front
      × (cert.extensions ≡ front ++ (map shown exts ++ back))
leaf_parsed [] leaf h = absurd (cc h)
leaf_parsed (ext ∷ []) leaf h = (
  record { public_key = ecdsa (codes "leaf key"); extensions = shown ext ∷ [] },
  [],
  [],
  record {
    block = leaf;
    decoded = refl;
    parsed = ap parse (sym (ok_injective h)) ∙ (rw (take-length ext.oid, drop-length ext.oid));
  },
  tt,
  refl,
)
leaf_parsed (ext ∷ ext' ∷ exts) leaf h = absurd (cc h)

go-IsCompatible : IsCompatible toy pki go
go-IsCompatible = record {
  ecdsa_key = λ k. k;
  sign-length = λ k d m s h. ap length (sym (ok_injective h)) ∙ ap suc (length-fit 63 k);
  verify-sign = λ k d m s h.
      subst (λ t. verify k m (big_endian 0 (take 32 t)) (big_endian 0 (drop 32 t)) ≡ true)
        (ok_injective h) (verify_signature k m);
  decode_string-encode = λ b. returned_of _ b (read-write b);
  unmarshal_claim-to_vec = λ c b h. returned_of _ c (claim_json-IsJson.from_slice-to_vec c b h);
  unmarshal-IsOctetString = λ value content s few. returned_of _ content (
      ap unwrap_octet_string (sym (append-nil value))
      ∙ unwrap_octet_string-IsOctetString value content [] s (omega (arith, few)));
  signed_parsed = λ csr issuer leaf key draw h. leaf_parsed csr.params.custom_extensions leaf h;
}

ca-IsHeld : IsHeld toy toy-IsTokens pki go go-IsCompatible ca
unfolding from_pkcs8_der map_err ◌>>=◌ go-IsCompatible
ca-IsHeld = record {
  cert = record { public_key = ecdsa (codes "fresh key"); extensions = [] };
  held = record { block = ca_pem; decoded = refl; parsed = refl };
  same_key = λ s h. ap (λ (k : CapJwtSigner toy). ecdsa k.key_pair) (ok_injective h);
}

sign_csr-IsAgreed_example :
    IsAgreed toy toy-IsTokens pki go go-IsCompatible x509 pki-IsReadable order pem ca_pem
sign_csr-IsAgreed_example =
    sign_csr-IsAgreed toy toy-IsTokens pki go go-IsCompatible x509 pki-IsReadable ambient ca order
      pem ca-IsHeld ca-IsKeyed order_signed tokens_short

new_evaluator_iff_example :
    (new_evaluator go pem ca_pem ≡ ok (record { claim = claim_of order 1000 }))
    ↔ IsVerified go pem ca_pem (claim_of order 1000)
new_evaluator_iff_example = new_evaluator_iff go pem ca_pem (claim_of order 1000)

new_evaluator-calm_example : new_evaluator go pem ca_pem ≢ panic
new_evaluator-calm_example = new_evaluator-calm go pem ca_pem

grants_same_example :
    (can_call_rpc (record { claim = claim_of order 1000 }) (codes "b") (codes "data") (codes "read")
      ≡ Rust.can_call_rpc
          (record { claim = claim_of order 1000 })
          (codes "b")
          (codes "data")
          (codes "read"))
    × (can_access_path
          (record { claim = claim_of order 1000 })
          (codes "b")
          (codes "data")
          (codes "read")
        ≡ Rust.can_access_path
            (record { claim = claim_of order 1000 })
            (codes "b")
            (codes "data")
            (codes "read"))
grants_same_example = grants_same (claim_of order 1000) (codes "b") (codes "data") (codes "read")
