-- ===== src/Go/Grants.antt =====
-- `CanCallRpc` and `CanAccessPath` of libs/go-libs/auth-scope-evaluator/evaluator.go. Its structs have
-- the fields of those in Proto/Caps.
pub mod Same
use vm_auth_scope.Base.{
  Bool, true, false, List, [], ◌∷◌, ◌++◌, Text, codes, ◌==◌, text_eq, if◌then◌else◌,
}
use vm_auth_scope.Proto.Caps.{PathAccess, Capability, CapClaim}

pub record Evaluator : Type 0 where
  pub claim : CapClaim

-- A loop that returns true at the first item that is the text.
unfoldable pub lists : List Text → Text → Bool
lists [] text = false
lists (item ∷ items) text = let rest = lists items text in if item == text then true else rest

-- The loop of `CanCallRpc`.
unfoldable pub calls_granted : List Capability → Text → Text → Text → Bool
calls_granted [] my_vm_name module' full_method = false
calls_granted (cap ∷ caps) my_vm_name module' full_method =
    let rest = calls_granted caps my_vm_name module' full_method in
    if cap.target_vm == my_vm_name
    then if lists cap.rpc_modules module'
      then true
      else if lists cap.rpc_methods full_method
      then true
      else rest
    else rest

unfoldable pub can_call_rpc : Evaluator → Text → Text → Text → Bool
can_call_rpc e my_vm_name module' method =
    let full_method = module' ++ (codes "." ++ method) in
    calls_granted e.claim.caps my_vm_name module' full_method

-- The loop over the paths of a capability.
unfoldable pub paths_granted : List PathAccess → Text → Text → Bool
paths_granted [] path access_mode = false
paths_granted (p ∷ ps) path access_mode =
    let rest = paths_granted ps path access_mode in
    if p.path == path then if lists p.access access_mode then true else rest else rest

-- The loop of `CanAccessPath`.
unfoldable pub accesses_granted : List Capability → Text → Text → Text → Bool
accesses_granted [] my_vm_name path access_mode = false
accesses_granted (cap ∷ caps) my_vm_name path access_mode =
    let rest = accesses_granted caps my_vm_name path access_mode in
    if cap.target_vm == my_vm_name
    then if paths_granted cap.paths path access_mode then true else rest
    else rest

unfoldable pub can_access_path : Evaluator → Text → Text → Text → Bool
can_access_path e my_vm_name path access_mode =
    accesses_granted e.claim.caps my_vm_name path access_mode
