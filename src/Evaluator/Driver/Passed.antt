-- ===== src/Evaluator/Driver/Passed.antt =====
-- When the test program passes.
use mathlib.Core.Path.{ap₂}
use vm_auth_scope.Base.{
  ◌≡◌, ◌↔◌, refl, ap, ◌∙◌, Bool, true, false, not, List, [], ◌∷◌, All, Some, Text, codes, arith,
}
use vm_auth_scope.Base.Result.{Result, ok, err, panic}
use vm_auth_scope.Ca.Tokens.{Tokens}
use vm_auth_scope.Evaluator.Certificate.{from_cert_pem}
use vm_auth_scope.Evaluator.Driver.{
  expect_ok, local_vm, assertions, assert_all, expect_file, evaluate, main,
}
use vm_auth_scope.Evaluator.Grants.{Evaluator, can_call_rpc, can_access_path}
use vm_auth_scope.Evaluator.Grants.Exact.{
  CallGrant, AccessGrant, can_call_rpc_iff, can_access_path_iff,
}
use vm_auth_scope.Evaluator.X509.{X509}
use vm_auth_scope.Io.{lift}
use vm_auth_scope.Io.Files.{Files}
use vm_auth_scope.Io.Laws.{outcome, state_after, >>=-eq-ok, >>=_of_ok, >>=-lift-eq-ok, lift-eq-ok}

module _ {E A : Type 0} where
  expect_ok-eq-ok : (r : Result E A) (a : A) → expect_ok r ≡ ok a → r ≡ ok a
  unfolding expect_ok
  expect_ok-eq-ok (ok b) a h = ground arith
  expect_ok-eq-ok (err e) a h = absurd (cc h)
  expect_ok-eq-ok panic a h = absurd (cc h)

  expect_ok_of_ok : (r : Result E A) (a : A) → r ≡ ok a → expect_ok r ≡ ok a
  unfolding expect_ok
  expect_ok_of_ok r a h = rw h

assert_all-All : (bs : List Bool) → assert_all bs ≡ ok tt → All (λ b. b ≡ true) bs
unfolding assert_all
assert_all-All [] h = tt
assert_all-All (true ∷ bs) h = (refl, assert_all-All bs h)
assert_all-All (false ∷ bs) h = absurd (cc h)

assert_all_of_All : (bs : List Bool) → All (λ b. b ≡ true) bs → assert_all bs ≡ ok tt
unfolding assert_all
assert_all_of_All [] h = refl
assert_all_of_All (true ∷ bs) h = assert_all_of_All bs h.1
assert_all_of_All (false ∷ bs) h = absurd (cc h.0)

not_iff : (b : Bool) → (not b ≡ true) ↔ (¬ (b ≡ true))
not_iff true = (λ h. absurd (cc h), λ h. absurd (h refl))
not_iff false = (λ h e. absurd (cc e), λ h. refl)

-- What the claim grants to the local VM, and what it does not.
pub record IsExpected (e : Evaluator) : Type 0 where
  pub auth_any : Some (CallGrant local_vm (codes "auth") (codes "any_method")) e.claim.caps
  pub data_read : Some (CallGrant local_vm (codes "data") (codes "read_secure")) e.claim.caps
  pub no_data_write : ¬ Some (CallGrant local_vm (codes "data") (codes "write")) e.claim.caps
  pub health_read : Some (AccessGrant local_vm (codes "/api/v1/health") (codes "read")) e.claim.caps
  pub no_health_write :
      ¬ Some (AccessGrant local_vm (codes "/api/v1/health") (codes "write")) e.claim.caps
  pub no_admin_read :
      ¬ Some (AccessGrant local_vm (codes "/api/v1/admin") (codes "read")) e.claim.caps

allows_not : {b : Bool} {G : Type 0} → (b ≡ true) ↔ G → not b ≡ true → ¬ G
allows_not {b} granted h g = (not_iff b).0 h (granted.1 g)

not_allowed : {b : Bool} {G : Type 0} → (b ≡ true) ↔ G → ¬ G → not b ≡ true
not_allowed {b} granted h = (not_iff b).1 (λ e. h (granted.0 e))

module _ (e : Evaluator) where
  abbrev call :
      (module' method : Text)
      → (can_call_rpc e local_vm module' method ≡ true)
        ↔ Some (CallGrant local_vm module' method) e.claim.caps
  call module' method = can_call_rpc_iff local_vm module' method e

  abbrev access :
      (path mode : Text)
      → (can_access_path e local_vm path mode ≡ true)
        ↔ Some (AccessGrant local_vm path mode) e.claim.caps
  access path mode = can_access_path_iff local_vm path mode e

  assertions-IsExpected : assert_all (assertions e) ≡ ok tt → IsExpected e
  unfolding assertions
  assertions-IsExpected h =
      let (a, (b, (c, (d, (x, (y, _)))))) = assert_all-All _ h in
      record {
        auth_any = (call (codes "auth") (codes "any_method")).0 a;
        data_read = (call (codes "data") (codes "read_secure")).0 b;
        no_data_write = allows_not (call (codes "data") (codes "write")) c;
        health_read = (access (codes "/api/v1/health") (codes "read")).0 d;
        no_health_write = allows_not (access (codes "/api/v1/health") (codes "write")) x;
        no_admin_read = allows_not (access (codes "/api/v1/admin") (codes "read")) y;
      }

  assertions_of_IsExpected : IsExpected e → assert_all (assertions e) ≡ ok tt
  unfolding assertions
  assertions_of_IsExpected x = assert_all_of_All _ (
    (call (codes "auth") (codes "any_method")).1 x.auth_any,
    (
      (call (codes "data") (codes "read_secure")).1 x.data_read,
      (
        not_allowed (call (codes "data") (codes "write")) x.no_data_write,
        (
          (access (codes "/api/v1/health") (codes "read")).1 x.health_read,
          (
            not_allowed (access (codes "/api/v1/health") (codes "write")) x.no_health_write,
            (not_allowed (access (codes "/api/v1/admin") (codes "read")) x.no_admin_read, (tt)),
          ),
        ),
      ),
    ),
  )

module _ (F : Files) (X : X509) (K : Tokens) where
  open F use {Disk, read_to_string}

  -- Two arguments behind the program's name, two files that are read, and a certificate whose
  -- evaluator grants what is expected.
  pub record IsPassed (args : List Text) (d d' : Disk) : Type 0 where
    pub program : Text
    pub peer_path : Text
    pub ca_path : Text
    pub peer_cert_pem : Text
    pub ca_cert_pem : Text
    pub between : Disk
    pub eval : Evaluator
    pub called : args ≡ program ∷ peer_path ∷ ca_path ∷ []
    pub peer_read : read_to_string peer_path d ≡ (ok peer_cert_pem, between)
    pub ca_read : read_to_string ca_path between ≡ (ok ca_cert_pem, d')
    pub evaluated : from_cert_pem X K peer_cert_pem ca_cert_pem ≡ ok eval
    pub expected : IsExpected eval

  expect_file-eq-ok :
      (path : Text) (d : Disk) (t : Text) (d' : Disk)
      → expect_file F X K path d ≡ (ok t, d')
      → read_to_string path d ≡ (ok t, d')
  unfolding expect_file
  expect_file-eq-ok path d t d' h =
      let r = expect_ok-eq-ok (read_to_string path d).0 t (outcome h) in
      ap₂ (λ x y. (x, y)) r (state_after h)

  expect_file_of_ok :
      (path : Text) (d : Disk) (t : Text) (d' : Disk)
      → read_to_string path d ≡ (ok t, d')
      → expect_file F X K path d ≡ (ok t, d')
  unfolding expect_file expect_ok
  expect_file_of_ok path d t d' h = rw h

  main-IsPassed :
      (args : List Text) (d d' : Disk) → main F X K args d ≡ (ok tt, d') → IsPassed args d d'
  unfolding main evaluate lift
  main-IsPassed (program ∷ peer_path ∷ ca_path ∷ []) d d' h =
      let (peer, d₁, e₁, h₁) = >>=-eq-ok _ _ d h in
      let (ca, d₂, e₂, h₂) = >>=-eq-ok _ _ d₁ h₁ in
      let (eval, e₃, h₃) = >>=-lift-eq-ok _ _ d₂ h₂ in
      let (passed, same) = lift-eq-ok _ d₂ h₃ in
      record {
        program = program;
        peer_path = peer_path;
        ca_path = ca_path;
        peer_cert_pem = peer;
        ca_cert_pem = ca;
        between = d₁;
        eval = eval;
        called = refl;
        peer_read = expect_file-eq-ok peer_path d peer d₁ e₁;
        ca_read = expect_file-eq-ok ca_path d₁ ca d₂ e₂ ∙ ap (λ x. (ok ca, x)) same;
        evaluated = expect_ok-eq-ok _ eval e₃;
        expected = assertions-IsExpected eval passed;
      }
  main-IsPassed [] d d' h = absurd (cc (outcome h))
  main-IsPassed (a ∷ []) d d' h = absurd (cc (outcome h))
  main-IsPassed (a ∷ b ∷ []) d d' h = absurd (cc (outcome h))
  main-IsPassed (a ∷ b ∷ c ∷ x ∷ l) d d' h = absurd (cc (outcome h))

  evaluate_of_IsPassed :
      (args : List Text) (d d' : Disk) (p : IsPassed args d d')
      → evaluate F X K p.peer_path p.ca_path d ≡ (ok tt, d')
  unfolding evaluate lift
  evaluate_of_IsPassed args d d' p =
      >>=_of_ok _ _ d (expect_file_of_ok p.peer_path d p.peer_cert_pem p.between p.peer_read)
      ∙ >>=_of_ok _ _ p.between (expect_file_of_ok p.ca_path p.between p.ca_cert_pem d' p.ca_read)
      ∙ >>=_of_ok (lift (expect_ok (from_cert_pem X K p.peer_cert_pem p.ca_cert_pem))) _ d'
          (ap (λ r. (r, d')) (expect_ok_of_ok _ p.eval p.evaluated))
      ∙ ap (λ r. (r, d')) (assertions_of_IsExpected p.eval p.expected)

  -- The test program passes exactly when it is given two paths, both files can be read, the
  -- evaluator takes a claim from the peer's certificate under the authority's, and that claim
  -- grants the local VM the module auth, data.read_secure and the reading of /api/v1/health, but
  -- not data.write, the writing of /api/v1/health or the reading of /api/v1/admin.
  pub main-IsPassed_iff :
      (args : List Text) (d d' : Disk) → (main F X K args d ≡ (ok tt, d')) ↔ IsPassed args d d'
  unfolding main
  main-IsPassed_iff args d d' = (
    main-IsPassed args d d',
    λ p. ap (λ a. main F X K a d) p.called ∙ evaluate_of_IsPassed args d d' p,
  )
