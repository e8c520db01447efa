-- ===== src/Tests/Renewal.antt =====
-- A new authority at a concrete input, and what it signs.
use vm_auth_scope.Base.{ℕ, ◌≡◌, refl, sym, ap, [], codes}
use vm_auth_scope.Base.Result.{ok}
use vm_auth_scope.Base.Result.Laws.{ok_injective}
use vm_auth_scope.Ca.Signing.{claim_of}
use vm_auth_scope.Deployment.Fresh.{IsSelfKeyed, from_cert_pem-init}
use vm_auth_scope.Evaluator.Certificate.{from_cert_pem}
use vm_auth_scope.Io.Memory.{memory}
use vm_auth_scope.Tests.Crates.{pki, pki-IsReadable, x509, read_leaf}
use vm_auth_scope.Tests.Disks.{blank_disk, blocks, new_ca, ca_disk, initialised}
use vm_auth_scope.Tests.Keys.{toy, toy-IsTokens, ambient, order, order_signed, pem, tokens_short}

pki-IsSelfKeyed : IsSelfKeyed pki x509 toy toy-IsTokens
pki-IsSelfKeyed = record {
  self_signed_parsed = λ params key draw c h. (
    record { subject_public_key = key; extensions = [] },
    record { contents = c; pem_parsed = refl; cert_parsed = ap read_leaf (sym (ok_injective h)) },
    λ k e. ok_injective e,
  );
}

from_cert_pem-init_example :
    (now : ℕ) × (ambient.clock ≡ ok now)
    × (from_cert_pem x509 toy pem new_ca.cert_pem ≡ ok (record { claim = claim_of order now }))
from_cert_pem-init_example =
    from_cert_pem-init memory pki blocks toy toy-IsTokens x509 pki-IsSelfKeyed pki-IsReadable
      (codes "cert") (codes "key") tt tt new_ca blank_disk ca_disk ambient order pem initialised
      order_signed tokens_short
