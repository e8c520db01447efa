-- ===== src/Go/Command.antt =====
-- libs/go-libs/auth-scope-evaluator/cmd/auth-scope-eval-test-go/main.go. An error is the code of
-- `os.Exit`; what is printed is left out, and reading a file is a parameter. The usage message names
-- `os.Args[0]`, which panics without it.
pub mod Passed
use vm_auth_scope.Base.{ℕ, Bool, not, List, [], ◌∷◌, Bytes, Text, codes, if◌then◌else◌}
use vm_auth_scope.Base.Result.{Result, ok, err, panic, map_err}
use vm_auth_scope.Go.Evaluator.{new_evaluator}
use vm_auth_scope.Go.Grants.{Evaluator, can_call_rpc, can_access_path}
use vm_auth_scope.Go.Library.{Library}
use vm_auth_scope.Io.{Run, ◌>>=◌, ◌>>◌, lift, wrap}

abbrev pub target_vm : Text
target_vm = codes "local-vm"

-- `if … { os.Exit(1) }`
abbrev pub exit_if : {Disk : Type 0} → Bool → Run Disk ℕ (Unit {0})
exit_if b = lift (if b then err 1 else ok tt)

-- The five checks, in their order.
unfoldable pub validate : {Disk : Type 0} → Evaluator → Run Disk ℕ (Unit {0})
validate eval = do
  exit_if (not (can_call_rpc eval target_vm (codes "auth") (codes "login")))
  exit_if (not (can_call_rpc eval target_vm (codes "data") (codes "read_secure")))
  exit_if (can_call_rpc eval target_vm (codes "data") (codes "write"))
  exit_if (not (can_access_path eval target_vm (codes "/api/v1/health") (codes "read")))
  exit_if (can_access_path eval target_vm (codes "/api/v1/health") (codes "write"))

module _ (G : Library) {Disk : Type 0} (read_file : Text → Run Disk Text Bytes) where
  unfoldable pub evaluate : Text → Text → Run Disk ℕ (Unit {0})
  evaluate peer_cert_path ca_cert_path = do
    peer_cert_pem ← wrap (λ e. 1) (read_file peer_cert_path)
    ca_cert_pem ← wrap (λ e. 1) (read_file ca_cert_path)
    eval ← lift (map_err (λ e. 1) (new_evaluator G peer_cert_pem ca_cert_pem))
    validate eval

  unfoldable pub main : List Text → Run Disk ℕ (Unit {0})
  main (program ∷ peer_cert_path ∷ ca_cert_path ∷ []) = evaluate peer_cert_path ca_cert_path
  main [] = lift panic
  main _ = lift (err 1)
