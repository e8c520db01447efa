-- ===== src/Tests/Keys.antt =====
-- A host with one VM and one entity, and a request from it.
use mathlib.Core.Path.{ap₂, subst}
use vm_auth_scope.Base.{
  ℕ, ◌<◌, ◌≡◌, refl, sym, ap, ◌∙◌, some, [], ◌∷◌, ◌++◌, Text, codes, length, arith,
}
use native.Mathlib.Decide.{ℕ_discrete}
use vm_auth_scope.Base.Result.{ok, ◌>>=◌, map_err}
use vm_auth_scope.Base.Result.Laws.{ok_injective}
use vm_auth_scope.Ca.Authority.{CertificateAuthority, key_pair, rcgen_cert}
use vm_auth_scope.Ca.Jwt.{CapJwtSigner, from_pkcs8_der, cap_jwt_header, dotted, sign}
use vm_auth_scope.Ca.Signing.{
  SigningRequest, Ambient, claim_of, cap_extension, leaf_params, sign_csr,
}
use vm_auth_scope.Ca.Signing.Issued.{IsIssued, sign_csr_iff}
use vm_auth_scope.Ca.Tokens.{Tokens, IsTokens}
use vm_auth_scope.Evaluator.EndToEnd.{IsKeyed}
use vm_auth_scope.Proto.Caps.{Capability, CapClaim}
use vm_auth_scope.Proto.Json.{Json, IsJson}
use vm_auth_scope.Proto.Wire.{CertRequest}
use vm_auth_scope.Server.Config.{HostConfig}
use vm_auth_scope.Server.Handler.{Setting, signing_request}
use vm_auth_scope.Server.Policy.{PolicyDecision}
use vm_auth_scope.Tests.Codecs.{only, only-to_vec, only-IsJson}
use vm_auth_scope.Tests.Crates.{
  blank, tokens, tokens-IsTokens, pki, x509, write, sum, unary, fit, signature,
}

abbrev pub grant : Capability
grant = record {
  target_vm = codes "b";
  rpc_modules = codes "auth" ∷ [];
  rpc_methods = codes "data.read" ∷ [];
  paths = record { path = codes "/health"; access = codes "read" ∷ [] } ∷ [];
}

abbrev pub config : HostConfig
config = record {
  ca_cert_path = codes "cert";
  ca_key_path = codes "key";
  server_port = 900;
  cert_validity_days = 365;
  vms =
      (
        codes "a",
        record {
          vm_cid = 3;
          entities = (codes "svc", record { caps = grant ∷ []; validity_days = some 30 }) ∷ [];
        },
      )
      ∷ [];
  peer_port = 901;
}

abbrev pub request : CertRequest
request = record { version = 1; vm_name = codes "a"; entity = codes "svc"; csr_pem = codes "csr" }

abbrev pub decision : PolicyDecision
decision = record { vm_name = codes "a"; vm_cid = 3; caps = grant ∷ []; validity_days = 30 }

abbrev pub order : SigningRequest
order = signing_request 3 request decision

pub claim-discrete : Discrete CapClaim
claim-discrete = hlevel ℕ_discrete

abbrev pub claim_json : Json CapClaim
claim_json = only claim-discrete (claim_of order 1000)

pub claim_json-IsJson : IsJson claim_json
claim_json-IsJson = only-IsJson claim-discrete (claim_of order 1000)

abbrev pub toy : Tokens
toy = tokens claim_json

abbrev pub toy-IsTokens : IsTokens toy
toy-IsTokens = tokens-IsTokens claim_json claim_json-IsJson

-- The certificate of a key.
abbrev pub ca_pem : Text
ca_pem = 0 ∷ codes "fresh key"

abbrev pub ca : CertificateAuthority
ca = record {
  key_pem = codes "fresh key";
  cert_pem = ca_pem;
  cert_der = ca_pem;
  key_der = codes "fresh key";
}

abbrev pub ambient : Ambient toy pki
ambient = record { clock = ok 1000; jwt_draw = tt; ca_draw = tt; leaf_draw = tt }

abbrev pub setting : Setting toy pki
setting = record { peer_cid = 3; config = config; ca = ca; ambient = ambient }

abbrev pub signer : CapJwtSigner toy
signer = record { key_pair = codes "fresh key" }

pub ca-IsKeyed : IsKeyed x509 toy toy-IsTokens ca
unfolding from_pkcs8_der map_err ◌>>=◌
ca-IsKeyed = record {
  cert = record { subject_public_key = codes "fresh key"; extensions = [] };
  held = record { contents = ca_pem; pem_parsed = refl; cert_parsed = refl };
  same_key = λ s h. ap (λ (k : CapJwtSigner toy). k.key_pair) (ok_injective h);
}

abbrev pub input : Text
input = dotted (write cap_jwt_header) (write (7 ∷ []))

abbrev pub jwt : Text
jwt = dotted input (write (signature (codes "fresh key") input))

pub signed : sign toy signer tt (claim_of order 1000) ≡ ok jwt
unfolding sign map_err ◌>>=◌
signed = rw (only-to_vec claim-discrete (claim_of order 1000))

abbrev pub pem : Text
pem = 9 ∷ (1 ∷ 3 ∷ 6 ∷ 1 ∷ 4 ∷ 1 ∷ 99999 ∷ 1 ∷ [] ++ (cap_extension jwt).content)

pub order-IsIssued : (csr : Text) → IsIssued toy pki ambient ca (record order { csr_pem = csr }) pem
unfolding from_pkcs8_der key_pair rcgen_cert leaf_params map_err ◌>>=◌ claim_of
order-IsIssued csr = record {
  now = 1000;
  signer = signer;
  jwt = jwt;
  csr = record { params = blank; public_key = csr };
  first_day = 2024;
  last_day = 2025;
  issuer = ca_pem;
  issuer_key = codes "fresh key";
  leaf = pem;
  clock_read = refl;
  signer_made = refl;
  token_signed = signed;
  csr_parsed = refl;
  begins = refl;
  ends = refl;
  issuer_made = refl;
  key_made = refl;
  leaf_signed = refl;
  printed = refl;
}

-- The authority signs the request, whatever its CSR.
pub signed_for :
    (csr : Text) → sign_csr toy pki ambient ca (record order { csr_pem = csr }) ≡ ok pem
signed_for csr =
    (sign_csr_iff toy pki ambient ca (record order { csr_pem = csr }) pem).1 (order-IsIssued csr)

pub order_signed : sign_csr toy pki ambient ca order ≡ ok pem
order_signed = signed_for (codes "csr")

pub length-jwt : length jwt < 65536
unfolding write unary sum fit
length-jwt = omega arith

-- Whatever the authority signs for the request at that time is that token.
pub tokens_short :
    (s : CapJwtSigner toy) (now : ℕ) (t : Text)
    → ambient.clock ≡ ok now
    → from_pkcs8_der toy ca.key_der ≡ ok s
    → sign toy s tt (claim_of order now) ≡ ok t
    → length t < 65536
unfolding from_pkcs8_der map_err ◌>>=◌
tokens_short s now t at_time made done =
    subst (λ u. length u < 65536)
      (ok_injective (
        sym signed
        ∙ ap₂ (λ k n. sign toy k tt (claim_of order n)) (ok_injective made) (ok_injective at_time)
        ∙ done))
      length-jwt
