-- ===== src/Evaluator/Driver.antt =====
-- libs/rust-libs/auth-scope-evaluator/src/bin/auth-scope-eval-test.rs. A failed `expect` or `assert!` is
-- a panic, and an error is the code of `process::exit`.
pub mod Passed
use vm_auth_scope.Base.{ℕ, Bool, true, false, not, List, [], ◌∷◌, Text, codes, if◌then◌else◌}
use vm_auth_scope.Base.Result.{Result, ok, err, panic}
use vm_auth_scope.Ca.Tokens.{Tokens}
use vm_auth_scope.Evaluator.Certificate.{from_cert_pem}
use vm_auth_scope.Evaluator.Grants.{Evaluator, can_call_rpc, can_access_path}
use vm_auth_scope.Evaluator.X509.{X509}
use vm_auth_scope.Io.{IoError, Run, ◌>>=◌, ◌>>◌, lift}
use vm_auth_scope.Io.Files.{Files}

-- `.expect(…)` on a `Result`
unfoldable pub expect_ok : {E A : Type 0} → Result E A → Result ℕ A
expect_ok (ok a) = ok a
expect_ok _ = panic

abbrev pub local_vm : Text
local_vm = codes "local-vm"

-- The six assertions, in their order.
unfoldable pub assertions : Evaluator → List Bool
assertions eval =
    can_call_rpc eval local_vm (codes "auth") (codes "any_method")
    ∷ can_call_rpc eval local_vm (codes "data") (codes "read_secure")
    ∷ not (can_call_rpc eval local_vm (codes "data") (codes "write"))
    ∷ can_access_path eval local_vm (codes "/api/v1/health") (codes "read")
    ∷ not (can_access_path eval local_vm (codes "/api/v1/health") (codes "write"))
    ∷ not (can_access_path eval local_vm (codes "/api/v1/admin") (codes "read"))
    ∷ []

unfoldable pub assert_all : List Bool → Result ℕ (Unit {0})
assert_all [] = ok tt
assert_all (true ∷ bs) = assert_all bs
assert_all (false ∷ bs) = panic

module _ (F : Files) (X : X509) (K : Tokens) where
  open F use {Disk, read_to_string}

  -- `fs::read_to_string(…).expect(…)`
  unfoldable pub expect_file : Text → Run Disk ℕ Text
  expect_file path d = let (r, d') = read_to_string path d in (expect_ok r, d')

  unfoldable pub evaluate : Text → Text → Run Disk ℕ (Unit {0})
  evaluate peer_path ca_path = do
    peer_cert_pem ← expect_file peer_path
    ca_cert_pem ← expect_file ca_path
    eval ← lift (expect_ok (from_cert_pem X K peer_cert_pem ca_cert_pem))
    lift (assert_all (assertions eval))

  unfoldable pub main : List Text → Run Disk ℕ (Unit {0})
  main (program ∷ peer_path ∷ ca_path ∷ []) = evaluate peer_path ca_path
  main _ = lift (err 1)
