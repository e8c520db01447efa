-- ===== src/Evaluator/Error.antt =====
-- `EvalError` of libs/rust-libs/auth-scope-evaluator/src/lib.rs
use vm_auth_scope.Base.{Text}
use vm_auth_scope.Ca.Error.{CaError}

pub data EvalError : Type 0 where
  x509_parse : Text → EvalError
  missing_capability_extension : EvalError
  jwt_verification : CaError → EvalError
