-- ===== src/Agent/Csr.antt =====
-- apps/rust-apps/auth-scope-agent/src/csr.rs
use vm_auth_scope.Base.{[], ◌∷◌, Text, codes}
use vm_auth_scope.Base.Result.{Result, ok, ◌>>=◌, map_err}
use vm_auth_scope.Ca.Error.{RcgenError}
use vm_auth_scope.Ca.Pki.{Pki, common_name, organization_name}
use vm_auth_scope.Io.{AnyError, message}

pub record GeneratedCsr : Type 0 where
  pub key_pem : Text
  pub csr_pem : Text

-- `?` on an error of `rcgen`.
abbrev pub of_rcgen : RcgenError → AnyError
of_rcgen e = message e.shown

module _ (P : Pki) where
  -- The two draws are those of the key and of the request's signature.
  unfoldable pub generate_csr : Text → P.Draw → P.Draw → Result AnyError GeneratedCsr
  generate_csr entity_name key_draw csr_draw = do
    key ← map_err of_rcgen (P.generate_for key_draw)
    let params = record (P.default_params) {
      distinguished_name =
          (common_name, entity_name) ∷ (organization_name, codes "auth-scope") ∷ [];
    }
    csr ← map_err of_rcgen (P.serialize_request params key csr_draw)
    csr_pem ← map_err of_rcgen (P.csr_pem csr)
    ok (record { key_pem = P.serialize_pem key; csr_pem = csr_pem })
