-- ===== src/Evaluator/Grants.antt =====
-- `Evaluator`, `can_call_rpc` and `can_access_path`
pub mod Exact
use vm_auth_scope.Base.{Bool, true, false, List, [], ◌∷◌, Text, any, ◌==◌, text_eq, if◌then◌else◌}
use vm_auth_scope.Ca.Jwt.{dotted}
use vm_auth_scope.Proto.Caps.{PathAccess, Capability, CapClaim}

pub record Evaluator : Type 0 where
  pub claim : CapClaim

-- The loop over the capabilities.
unfoldable pub rpc_granted : List Capability → Text → Text → Text → Bool
rpc_granted [] my_vm_name module' full_method = false
rpc_granted (c ∷ caps) my_vm_name module' full_method =
    let rest = rpc_granted caps my_vm_name module' full_method in
    if c.target_vm == my_vm_name
    then if any c.rpc_modules (λ m. m == module')
      then true
      else if any c.rpc_methods (λ m. m == full_method)
      then true
      else rest
    else rest

unfoldable pub can_call_rpc : Evaluator → Text → Text → Text → Bool
can_call_rpc e my_vm_name module' method =
    let full_method = dotted module' method in
    rpc_granted e.claim.caps my_vm_name module' full_method

-- The inner loop, over the paths of one capability: whether it returns true.
unfoldable pub path_granted : List PathAccess → Text → Text → Bool
path_granted [] path access_mode = false
path_granted (p ∷ ps) path access_mode =
    let rest = path_granted ps path access_mode in
    if p.path == path then if any p.access (λ a. a == access_mode) then true else rest else rest

-- The outer loop.
unfoldable pub access_granted : List Capability → Text → Text → Text → Bool
access_granted [] my_vm_name path access_mode = false
access_granted (c ∷ caps) my_vm_name path access_mode =
    let rest = access_granted caps my_vm_name path access_mode in
    if c.target_vm == my_vm_name
    then if path_granted c.paths path access_mode then true else rest
    else rest

unfoldable pub can_access_path : Evaluator → Text → Text → Text → Bool
can_access_path e my_vm_name path access_mode =
    access_granted e.claim.caps my_vm_name path access_mode
