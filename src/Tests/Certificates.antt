-- ===== src/Tests/Certificates.antt =====
-- Peer certificates at concrete inputs: the one that the authority signed, and two with one token.
use mathlib.Core.Path.{subst}
use vm_auth_scope.Base.{
  ◌<◌, ◌≡◌, ◌↔◌, refl, ap, ◌∙◌, some, [], ◌∷◌, ◌++◌, Bytes, Text, codes, All, All-append, take,
  drop, arith,
}
use vm_auth_scope.Base.Result.{ok}
use vm_auth_scope.Base.Result.Laws.{ok_injective}
use vm_auth_scope.Ca.Der.{encode_der_octet_string}
use vm_auth_scope.Ca.Der.Standard.{
  IsOctetString, short, long, encode_der_octet_string-IsOctetString,
}
use vm_auth_scope.Ca.Jwt.{cap_extension_oid}
use vm_auth_scope.Ca.Jwt.RoundTrip.{IsAscii, sign-IsAscii}
use vm_auth_scope.Ca.Signing.{claim_of}
use vm_auth_scope.Evaluator.Certificate.{from_cert_pem}
use vm_auth_scope.Evaluator.Certificate.Exact.{
  IsFirst, IsOfBytes, IsProven, from_cert_pem-IsProven_iff, from_cert_pem_same_value,
}
use vm_auth_scope.Evaluator.Certificate.Vouched.{Holds}
use vm_auth_scope.Evaluator.X509.{Extension, X509Certificate, X509}
use vm_auth_scope.Tests.Crates.{x509, read_leaf}
use vm_auth_scope.Tests.Keys.{
  ca_pem, toy, toy-IsTokens, order, signer, signed, jwt, length-jwt, pem,
}

of_ascii : (s : Text) → All IsAscii s → All (λ b. b < 256) s
of_ascii [] h = tt
of_ascii (c ∷ s) (low, h) = (omega (arith, low), of_ascii s h)

-- An OCTET STRING of bytes is bytes.
wrapped_bytes :
    (value content : Bytes)
    → IsOctetString value content
    → All (λ b. b < 256) content
    → All (λ b. b < 256) value
wrapped_bytes _ content (short few) h = (omega arith, (omega (arith, few), h))
wrapped_bytes _ content (long bs few small first many whole) h =
    (omega arith, (omega (arith, few), All-append (λ b. b < 256) bs content small h))

abbrev wrapped : Bytes
wrapped = encode_der_octet_string jwt

wrapped-bytes : All (λ b. b < 256) wrapped
wrapped-bytes =
    wrapped_bytes wrapped jwt (encode_der_octet_string-IsOctetString jwt length-jwt)
      (of_ascii jwt (sign-IsAscii toy toy-IsTokens signer tt (claim_of order 1000) jwt signed))

abbrev worn : Text → X509Certificate
worn key = record {
  subject_public_key = key;
  extensions = record { oid = some cap_extension_oid; value = wrapped } ∷ [];
}

leaf_bytes : (cert : X509Certificate) → Holds x509 pem cert → All IsOfBytes cert.extensions
leaf_bytes cert h =
    let same : worn (codes "leaf key") ≡ cert =
      ok_injective (ap read_leaf (ok_injective h.pem_parsed) ∙ h.cert_parsed) in
    subst (λ (c : X509Certificate). All IsOfBytes c.extensions) same
      (record { bytes = wrapped-bytes }, tt)

from_cert_pem-IsProven_iff_example :
    (from_cert_pem x509 toy pem ca_pem ≡ ok (record { claim = claim_of order 1000 }))
    ↔ IsProven x509 toy pem ca_pem (claim_of order 1000)
from_cert_pem-IsProven_iff_example =
    from_cert_pem-IsProven_iff x509 toy pem ca_pem (claim_of order 1000) leaf_bytes

-- A certificate here is the byte of its key and the value of its capability extension, which stands
-- behind another one.
abbrev other_extension : Extension
other_extension = record { oid = some (2 ∷ 5 ∷ []); value = codes "usage" }

abbrev behind_other : X509
behind_other = record {
  parse_x509_pem = λ t. ok t;
  parse_x509_certificate = λ b. ok (record {
    subject_public_key = take 1 b;
    extensions = other_extension ∷ record { oid = some cap_extension_oid; value = drop 1 b } ∷ [];
  });
}

abbrev made : Text → Bytes → X509Certificate
made key value = record {
  subject_public_key = key;
  extensions = other_extension ∷ record { oid = some cap_extension_oid; value = value } ∷ [];
}

made-IsFirst : (key : Text) (value : Bytes) → IsFirst (made key value).extensions value
made-IsFirst key value = record {
  front = other_extension ∷ [];
  back = [];
  split = refl;
  others = (record { arcs = 2 ∷ 5 ∷ []; shown = refl; differs = λ e. cc e }, tt);
}

from_cert_pem_same_value_example :
    from_cert_pem behind_other toy (codes "a" ++ wrapped) (codes "ca")
    ≡ from_cert_pem behind_other toy (codes "b" ++ wrapped) (codes "ca")
from_cert_pem_same_value_example =
    from_cert_pem_same_value behind_other toy (codes "a" ++ wrapped) (codes "b" ++ wrapped)
      (codes "ca") (made (codes "a") wrapped) (made (codes "b") wrapped)
      (made (codes "c") (codes "a")) wrapped
      (record { contents = codes "a" ++ wrapped; pem_parsed = refl; cert_parsed = refl })
      (record { contents = codes "b" ++ wrapped; pem_parsed = refl; cert_parsed = refl })
      (record { contents = codes "ca"; pem_parsed = refl; cert_parsed = refl })
      (made-IsFirst (codes "a") wrapped) (made-IsFirst (codes "b") wrapped)
