-- ===== src/Ca/Pki.antt =====
-- What the authority needs of `rcgen`, as an interface.
use vm_auth_scope.Base.{ℕ, Bool, Option, List, Bytes, Text}
use vm_auth_scope.Base.Result.{Result}
use vm_auth_scope.Ca.Error.{RcgenError}

pub data KeyUsage : Type 0 where
  digital_signature content_commitment key_cert_sign crl_sign : KeyUsage

pub data DnType : Type 0 where
  common_name organization_name : DnType

pub record CustomExtension : Type 0 where
  pub oid : List ℕ
  pub content : Bytes
  pub critical : Bool

-- `CertificateParams`: the fields that the program sets, and the others.
pub record Params (Date Other : Type 0) : Type 0 where
  pub distinguished_name : List (DnType × Text)
  pub is_ca : Bool
  pub key_usages : List KeyUsage
  pub custom_extensions : List CustomExtension
  pub not_before : Date
  pub not_after : Date
  pub other : Other

-- `CertificateSigningRequestParams`
pub record CsrParams (Date Other PublicKey : Type 0) : Type 0 where
  pub params : Params Date Other
  pub public_key : PublicKey

-- `date_time_ymd` panics on a year that the `time` crate does not have. A `Draw` is what the random
-- generator gives to one call.
pub record Pki : Type 1 where
  pub Date : Type 0
  pub Other : Type 0
  pub PublicKey : Type 0
  pub KeyPair : Type 0
  pub Certificate : Type 0
  pub Csr : Type 0
  pub Draw : Type 0
  pub date_time_ymd : ℕ → ℕ → ℕ → Option Date
  pub default_params : Params Date Other
  pub generate_for : Draw → Result RcgenError KeyPair
  pub key_from_pem : Text → Result RcgenError KeyPair
  pub serialize_pem : KeyPair → Text
  pub serialize_der : KeyPair → Bytes
  pub csr_from_pem : Text → Result RcgenError (CsrParams Date Other PublicKey)
  pub from_ca_cert_pem : Text → Result RcgenError (Params Date Other)
  pub self_signed : Params Date Other → KeyPair → Draw → Result RcgenError Certificate
  pub signed_by :
      CsrParams Date Other PublicKey → Certificate → KeyPair → Draw → Result RcgenError Certificate
  pub cert_pem : Certificate → Text
  pub cert_der : Certificate → Bytes
  pub serialize_request : Params Date Other → KeyPair → Draw → Result RcgenError Csr
  pub csr_pem : Csr → Result RcgenError Text
