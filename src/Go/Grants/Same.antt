-- ===== src/Go/Grants/Same.antt =====
-- The evaluators in Go and in Rust answer alike.
use vm_auth_scope.Base.{◌≡◌, refl, List, [], ◌∷◌, Text, any, ◌==◌, text_eq, arith}
use vm_auth_scope.Ca.Jwt.{dotted}
use vm_auth_scope.Evaluator.Grants as Rust
use vm_auth_scope.Evaluator.Grants.{rpc_granted, path_granted, access_granted}
use vm_auth_scope.Go.Grants.{
  lists, calls_granted, can_call_rpc, paths_granted, accesses_granted, can_access_path,
}
use vm_auth_scope.Proto.Caps.{PathAccess, Capability, CapClaim}

lists-any : (items : List Text) (text : Text) → lists items text ≡ any items (λ m. m == text)
unfolding lists
lists-any [] text = refl
lists-any (item ∷ items) text = ground (arith, lists-any items text)

calls_granted_same :
    (caps : List Capability) (vm module' full : Text)
    → calls_granted caps vm module' full ≡ rpc_granted caps vm module' full
unfolding calls_granted rpc_granted
calls_granted_same [] vm module' full = refl
calls_granted_same (c ∷ caps) vm module' full = rw (
  lists-any c.rpc_modules module',
  lists-any c.rpc_methods full,
  calls_granted_same caps vm module' full,
)

paths_granted_same :
    (ps : List PathAccess) (path mode : Text)
    → paths_granted ps path mode ≡ path_granted ps path mode
unfolding paths_granted path_granted
paths_granted_same [] path mode = refl
paths_granted_same (p ∷ ps) path mode =
    rw (lists-any p.access mode, paths_granted_same ps path mode)

accesses_granted_same :
    (caps : List Capability) (vm path mode : Text)
    → accesses_granted caps vm path mode ≡ access_granted caps vm path mode
unfolding accesses_granted access_granted
accesses_granted_same [] vm path mode = refl
accesses_granted_same (c ∷ caps) vm path mode =
    rw (paths_granted_same c.paths path mode, accesses_granted_same caps vm path mode)

-- For any claim, the evaluator in Go allows a call, or an access, exactly when the one in Rust does.
pub grants_same :
    (claim : CapClaim) (vm a b : Text)
    → (can_call_rpc (record { claim = claim }) vm a b
        ≡ Rust.can_call_rpc (record { claim = claim }) vm a b)
      × (can_access_path (record { claim = claim }) vm a b
          ≡ Rust.can_access_path (record { claim = claim }) vm a b)
unfolding can_call_rpc Rust.can_call_rpc can_access_path Rust.can_access_path
grants_same claim vm a b =
    (calls_granted_same claim.caps vm a (dotted a b), accesses_granted_same claim.caps vm a b)
