-- ===== src/Evaluator/X509.antt =====
-- What the evaluator reads of a certificate through `x509_parser`, as an interface.
use vm_auth_scope.Base.{ℕ, Option, List, Bytes, Text}
use vm_auth_scope.Base.Result.{Result}

-- An extension: the arcs of its identifier, where they fit 64 bits, and its value.
pub record Extension : Type 0 where
  pub oid : Option (List ℕ)
  pub value : Bytes

-- The parts of a certificate that the evaluator reads.
pub record X509Certificate : Type 0 where
  pub subject_public_key : Bytes
  pub extensions : List Extension

-- `parse_x509_pem` gives the contents of the first block. An error is its `{:?}` text.
pub record X509 : Type 0 where
  pub parse_x509_pem : Text → Result Text Bytes
  pub parse_x509_certificate : Bytes → Result Text X509Certificate
