-- ===== src/Tests/Examples.antt =====
-- Each property at a concrete input.
use vm_auth_scope.Base.{
  ℕ, ◌<◌, All, ◌≡◌, ◌↔◌, refl, true, some, [], ◌∷◌, ◌++◌, Bytes, codes, text_beq, take, drop, Some,
  arith,
}
use vm_auth_scope.Base.Result.{ok, panic, ◌>>=◌, expect}
use vm_auth_scope.Ca.Der.{encode_der_octet_string}
use vm_auth_scope.Evaluator.X509.{X509Certificate, X509}
use vm_auth_scope.Ca.Jwt.{cap_extension_oid, verify_cap_jwt}
use vm_auth_scope.Ca.Jwt.Accepts.{IsAccepted, verify_cap_jwt_iff}
use vm_auth_scope.Ca.Jwt.RoundTrip.{verify_cap_jwt-sign}
use vm_auth_scope.Ca.Signing.{claim_of}
use vm_auth_scope.Ca.Signing.Certified.{IsCertified, sign_csr-IsCertified}
use vm_auth_scope.Evaluator.Certificate.{find_capability, from_cert_pem}
use vm_auth_scope.Evaluator.Certificate.Truncated.{from_cert_pem_cut}
use vm_auth_scope.Evaluator.EndToEnd.{from_cert_pem-sign_csr}
use vm_auth_scope.Evaluator.Grants.{Evaluator, can_call_rpc, can_access_path}
use vm_auth_scope.Evaluator.Grants.Exact.{
  CallGrant, AccessGrant, can_call_rpc_iff, can_access_path_iff,
}
use vm_auth_scope.Evaluator.OctetString.{slice, der_length, inner_bytes, unwrap_octet_string}
use vm_auth_scope.Evaluator.OctetString.Exact.{IsWrapped, IsCut, unwrap_octet_string_iff}
use vm_auth_scope.Evaluator.OctetString.RoundTrip.{unwrap_octet_string-encode}
use vm_auth_scope.Tests.Crates.{x509, pki, pki-IsReadable}
use vm_auth_scope.Tests.Keys.{
  toy, toy-IsTokens, ca, ca-IsKeyed, ambient, order, order_signed, tokens_short, signer, signed,
  jwt, pem,
}

from_cert_pem-sign_csr_example :
    (now : ℕ) × (ambient.clock ≡ ok now)
    × (from_cert_pem x509 toy pem ca.cert_pem ≡ ok (record { claim = claim_of order now }))
from_cert_pem-sign_csr_example =
    from_cert_pem-sign_csr toy toy-IsTokens pki x509 pki-IsReadable ambient ca order pem ca-IsKeyed
      order_signed tokens_short

verify_cap_jwt-sign_example : verify_cap_jwt toy jwt (codes "fresh key") ≡ ok (claim_of order 1000)
verify_cap_jwt-sign_example =
    verify_cap_jwt-sign toy toy-IsTokens signer tt (claim_of order 1000) jwt signed

verify_cap_jwt_iff_example :
    (verify_cap_jwt toy jwt (codes "fresh key") ≡ ok (claim_of order 1000))
    ↔ IsAccepted toy jwt (codes "fresh key") (claim_of order 1000)
verify_cap_jwt_iff_example = verify_cap_jwt_iff toy (codes "fresh key") (claim_of order 1000) jwt

sign_csr-IsCertified_example : IsCertified toy toy-IsTokens pki ambient ca order pem
sign_csr-IsCertified_example =
    sign_csr-IsCertified toy toy-IsTokens pki ambient ca order pem order_signed

unwrap_octet_string-encode_example :
    unwrap_octet_string (encode_der_octet_string (codes "token")) ≡ ok (codes "token")
unwrap_octet_string-encode_example = unwrap_octet_string-encode (codes "token")

abbrev evaluator : Evaluator
evaluator = record { claim = claim_of order 1000 }

can_call_rpc_iff_example :
    (can_call_rpc evaluator (codes "b") (codes "data") (codes "read") ≡ true)
    ↔ Some (CallGrant (codes "b") (codes "data") (codes "read")) evaluator.claim.caps
can_call_rpc_iff_example = can_call_rpc_iff (codes "b") (codes "data") (codes "read") evaluator

can_access_path_iff_example :
    (can_access_path evaluator (codes "b") (codes "/health") (codes "read") ≡ true)
    ↔ Some (AccessGrant (codes "b") (codes "/health") (codes "read")) evaluator.claim.caps
can_access_path_iff_example =
    can_access_path_iff (codes "b") (codes "/health") (codes "read") evaluator

-- A certificate here is the byte of its key and the value of its extension.
abbrev keyed : X509
keyed = record {
  parse_x509_pem = λ t. ok t;
  parse_x509_certificate = λ b. ok (record {
    subject_public_key = take 1 b;
    extensions = record { oid = some cap_extension_oid; value = drop 1 b } ∷ [];
  });
}

abbrev ca_keyed : X509Certificate
ca_keyed = record {
  subject_public_key = codes "c";
  extensions = record { oid = some cap_extension_oid; value = codes "a" } ∷ [];
}

abbrev cut : Bytes
cut = 0x04 ∷ 5 ∷ codes "abc"

cut_bytes : All (λ b. b < 256) cut
cut_bytes = (omega arith, (omega arith, (omega arith, (omega arith, (omega arith, tt)))))

cut_panics : unwrap_octet_string cut ≡ panic
unfolding unwrap_octet_string inner_bytes der_length slice ◌>>=◌ expect
cut_panics = refl

from_cert_pem_cut_example : from_cert_pem keyed toy (codes "k" ++ cut) (codes "ca") ≡ panic
from_cert_pem_cut_example =
    from_cert_pem_cut keyed toy (codes "k" ++ cut) (codes "ca")
      (record {
        subject_public_key = codes "k";
        extensions = record { oid = some cap_extension_oid; value = cut } ∷ [];
      })
      ca_keyed cut (record { contents = codes "k" ++ cut; pem_parsed = refl; cert_parsed = refl })
      (record { contents = codes "ca"; pem_parsed = refl; cert_parsed = refl })
      (unfold find_capability text_beq in refl) cut_bytes
      ((unwrap_octet_string_iff cut cut_bytes).1.0 cut_panics)

abbrev wrapped : Bytes
wrapped = 0x04 ∷ 0x81 ∷ 2 ∷ codes "abc"

unwrap_octet_string_iff_example :
    ((content : Bytes) → (unwrap_octet_string wrapped ≡ ok content) ↔ IsWrapped wrapped content)
    × ((unwrap_octet_string wrapped ≡ panic) ↔ IsCut wrapped)
unwrap_octet_string_iff_example =
    unwrap_octet_string_iff wrapped
      (omega arith, (omega arith, (omega arith, (omega arith, (omega arith, (omega arith, tt))))))
