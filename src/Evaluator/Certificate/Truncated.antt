-- ===== src/Evaluator/Certificate/Truncated.antt =====
-- An extension value that is shorter than its length field says.
use vm_auth_scope.Base.{◌<◌, ◌≡◌, ◌∙◌, some, Bytes, Text, All}
use vm_auth_scope.Base.Result.{ok, panic, ◌>>=◌}
use vm_auth_scope.Ca.Tokens.{Tokens}
use vm_auth_scope.Evaluator.Certificate.{find_capability, read_capability, from_cert_pem}
use vm_auth_scope.Evaluator.Certificate.Vouched.{Holds, from_cert_pem_of_Holds}
use vm_auth_scope.Evaluator.OctetString.Exact.{IsCut, unwrap_octet_string_of_IsCut}
use vm_auth_scope.Evaluator.X509.{X509Certificate, X509}

-- A peer certificate whose capability extension begins with the tag of an OCTET STRING, but is too
-- short for its length field or for the content that the field announces, makes the evaluator panic.
pub from_cert_pem_cut :
    (X : X509) (K : Tokens) (peer ca : Text) (cert ca_cert : X509Certificate) (value : Bytes)
    → Holds X peer cert
    → Holds X ca ca_cert
    → find_capability cert.extensions ≡ ok (some value)
    → All (λ b. b < 256) value
    → IsCut value
    → from_cert_pem X K peer ca ≡ panic
unfolding read_capability ◌>>=◌
from_cert_pem_cut X K peer ca cert ca_cert value hp hc found small cut =
    from_cert_pem_of_Holds X K peer ca cert ca_cert hp hc
    ∙ (rw (found, unwrap_octet_string_of_IsCut value small cut))
