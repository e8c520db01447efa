-- ===== src/Go/Command/Passed.antt =====
-- When the test program in Go passes.
use vm_auth_scope.Base.{
  ℕ, ◌≡◌, ◌↔◌, refl, sym, ap, ◌∙◌, Bool, true, false, not, List, [], ◌∷◌, Some, Bytes, Text, codes,
}
use vm_auth_scope.Base.Result.{Result, ok, map_err}
use vm_auth_scope.Base.Result.Laws.{map_err-eq-ok, map_err_of_ok}
use vm_auth_scope.Evaluator.Grants.Exact.{
  CallGrant, AccessGrant, can_call_rpc_iff, can_access_path_iff,
}
use vm_auth_scope.Go.Command.{target_vm, exit_if, validate, evaluate, main}
use vm_auth_scope.Go.Evaluator.{new_evaluator}
use vm_auth_scope.Go.Grants.{Evaluator, can_call_rpc, can_access_path}
use vm_auth_scope.Go.Grants.Same.{grants_same}
use vm_auth_scope.Go.Library.{Library}
use vm_auth_scope.Io.{Run, lift}
use vm_auth_scope.Io.Laws.{outcome, >>=-eq-ok, >>=_of_ok, >>=-lift-eq-ok, wrap-eq-ok, wrap_of_ok}

-- What the claim grants to the local VM, and what it does not.
pub record IsExpected (e : Evaluator) : Type 0 where
  pub auth_login : Some (CallGrant target_vm (codes "auth") (codes "login")) e.claim.caps
  pub data_read : Some (CallGrant target_vm (codes "data") (codes "read_secure")) e.claim.caps
  pub no_data_write : ¬ Some (CallGrant target_vm (codes "data") (codes "write")) e.claim.caps
  pub health_read :
      Some (AccessGrant target_vm (codes "/api/v1/health") (codes "read")) e.claim.caps
  pub no_health_write :
      ¬ Some (AccessGrant target_vm (codes "/api/v1/health") (codes "write")) e.claim.caps

-- The answers in Go, as those in Rust.
module _ (e : Evaluator) (vm a b : Text) where
  call_iff : (can_call_rpc e vm a b ≡ true) ↔ Some (CallGrant vm a b) e.claim.caps
  call_iff =
      let (same, _) = grants_same e.claim vm a b in
      let (sound, complete) = can_call_rpc_iff vm a b (record { claim = e.claim }) in
      ((λ h. sound (sym same ∙ h)), (λ g. same ∙ complete g))

  access_iff : (can_access_path e vm a b ≡ true) ↔ Some (AccessGrant vm a b) e.claim.caps
  access_iff =
      let (_, same) = grants_same e.claim vm a b in
      let (sound, complete) = can_access_path_iff vm a b (record { claim = e.claim }) in
      ((λ h. sound (sym same ∙ h)), (λ g. same ∙ complete g))

module _ {Disk : Type 0} (d d' : Disk) where
  -- A check that went through left the disk alone.
  exit_if-eq-ok : (b : Bool) → exit_if b d ≡ (ok tt, d') → (b ≡ false) × (d ≡ d')
  unfolding lift
  exit_if-eq-ok true h = absurd (cc (outcome h))
  exit_if-eq-ok false h = (refl, ap (λ (r : Result ℕ (Unit {0}) × Disk). r.1) h)

allowed : {b : Bool} {X : Type 0} → (b ≡ true) ↔ X → not b ≡ false → X
allowed {b = true} h e = h.0 refl
allowed {b = false} h e = absurd (cc e)

denied : {b : Bool} {X : Type 0} → (b ≡ true) ↔ X → b ≡ false → ¬ X
denied h e x = cc (e, h.1 x)

allowed_of : {b : Bool} {X : Type 0} → (b ≡ true) ↔ X → X → not b ≡ false
allowed_of h x = rw (h.1 x)

denied_of : {b : Bool} {X : Type 0} → (b ≡ true) ↔ X → ¬ X → b ≡ false
denied_of {b = true} h f = absurd (f (h.0 refl))
denied_of {b = false} h f = refl

module _ {Disk : Type 0} (e : Evaluator) where
  validate-IsExpected : (d d' : Disk) → validate e d ≡ (ok tt, d') → IsExpected e × (d ≡ d')
  unfolding validate
  validate-IsExpected d d' h =
      let (_, d₁, e₁, h₁) = >>=-eq-ok _ _ d h in
      let (_, d₂, e₂, h₂) = >>=-eq-ok _ _ d₁ h₁ in
      let (_, d₃, e₃, h₃) = >>=-eq-ok _ _ d₂ h₂ in
      let (_, d₄, e₄, h₄) = >>=-eq-ok _ _ d₃ h₃ in
      let (b₁, s₁) = exit_if-eq-ok d d₁ _ e₁ in
      let (b₂, s₂) = exit_if-eq-ok d₁ d₂ _ e₂ in
      let (b₃, s₃) = exit_if-eq-ok d₂ d₃ _ e₃ in
      let (b₄, s₄) = exit_if-eq-ok d₃ d₄ _ e₄ in
      let (b₅, s₅) = exit_if-eq-ok d₄ d' _ h₄ in
      (
        record {
          auth_login = allowed (call_iff e target_vm (codes "auth") (codes "login")) b₁;
          data_read = allowed (call_iff e target_vm (codes "data") (codes "read_secure")) b₂;
          no_data_write = denied (call_iff e target_vm (codes "data") (codes "write")) b₃;
          health_read = allowed (access_iff e target_vm (codes "/api/v1/health") (codes "read")) b₄;
          no_health_write =
              denied (access_iff e target_vm (codes "/api/v1/health") (codes "write")) b₅;
        },
        s₁ ∙ s₂ ∙ s₃ ∙ s₄ ∙ s₅,
      )

  exit_if_of : (d : Disk) (b : Bool) → b ≡ false → exit_if b d ≡ (ok tt, d)
  unfolding lift
  exit_if_of d b h = rw h refl

  validate_of_IsExpected : (d : Disk) → IsExpected e → validate e d ≡ (ok tt, d)
  unfolding validate
  validate_of_IsExpected d x =
      >>=_of_ok _ _ d (
        exit_if_of d _
          (allowed_of (call_iff e target_vm (codes "auth") (codes "login")) x.auth_login))
      ∙ >>=_of_ok _ _ d (
          exit_if_of d _
            (allowed_of (call_iff e target_vm (codes "data") (codes "read_secure")) x.data_read))
      ∙ >>=_of_ok _ _ d (
          exit_if_of d _
            (denied_of (call_iff e target_vm (codes "data") (codes "write")) x.no_data_write))
      ∙ >>=_of_ok _ _ d (
          exit_if_of d _ (
            allowed_of (access_iff e target_vm (codes "/api/v1/health") (codes "read"))
              x.health_read))
      ∙ exit_if_of d _ (
          denied_of (access_iff e target_vm (codes "/api/v1/health") (codes "write"))
            x.no_health_write)

module _ (G : Library) {Disk : Type 0} (read_file : Text → Run Disk Text Bytes) where
  -- Two arguments behind the program's name, two files that are read, and a certificate whose
  -- evaluator grants what is expected.
  pub record IsPassed (args : List Text) (d d' : Disk) : Type 0 where
    pub program : Text
    pub peer_path : Text
    pub ca_path : Text
    pub peer_cert_pem : Text
    pub ca_cert_pem : Text
    pub between : Disk
    pub eval : Evaluator
    pub called : args ≡ program ∷ peer_path ∷ ca_path ∷ []
    pub peer_read : read_file peer_path d ≡ (ok peer_cert_pem, between)
    pub ca_read : read_file ca_path between ≡ (ok ca_cert_pem, d')
    pub evaluated : new_evaluator G peer_cert_pem ca_cert_pem ≡ ok eval
    pub expected : IsExpected eval

  main-eq-ok :
      (args : List Text) (d d' : Disk) → main G read_file args d ≡ (ok tt, d') → IsPassed args d d'
  unfolding main evaluate lift
  main-eq-ok (program ∷ peer_path ∷ ca_path ∷ []) d d' h =
      let (peer, d₁, e₁, h₁) = >>=-eq-ok _ _ d h in
      let (ca, d₂, e₂, h₂) = >>=-eq-ok _ _ d₁ h₁ in
      let (eval, e₃, h₃) = >>=-lift-eq-ok _ _ d₂ h₂ in
      let (expected, same) = validate-IsExpected eval d₂ d' h₃ in
      record {
        program = program;
        peer_path = peer_path;
        ca_path = ca_path;
        peer_cert_pem = peer;
        ca_cert_pem = ca;
        between = d₁;
        eval = eval;
        called = refl;
        peer_read = wrap-eq-ok _ _ d e₁;
        ca_read = wrap-eq-ok _ _ d₁ e₂ ∙ ap (λ x. (ok ca, x)) same;
        evaluated = map_err-eq-ok _ _ e₃;
        expected = expected;
      }
  main-eq-ok [] d d' h = absurd (cc (outcome h))
  main-eq-ok (a ∷ []) d d' h = absurd (cc (outcome h))
  main-eq-ok (a ∷ b ∷ []) d d' h = absurd (cc (outcome h))
  main-eq-ok (a ∷ b ∷ c ∷ x ∷ l) d d' h = absurd (cc (outcome h))

  evaluate_of_IsPassed :
      (args : List Text) (d d' : Disk) (p : IsPassed args d d')
      → evaluate G read_file p.peer_path p.ca_path d ≡ (ok tt, d')
  unfolding evaluate lift
  evaluate_of_IsPassed args d d' p =
      >>=_of_ok _ _ d (wrap_of_ok _ _ d p.peer_read)
      ∙ >>=_of_ok _ _ p.between (wrap_of_ok _ _ p.between p.ca_read)
      ∙ >>=_of_ok (lift (map_err (λ e. 1) (new_evaluator G p.peer_cert_pem p.ca_cert_pem))) _ d'
          (ap (λ r. (r, d')) (map_err_of_ok _ _ p.evaluated))
      ∙ validate_of_IsExpected p.eval d' p.expected

  -- The test program in Go passes exactly when it is given two paths, both files can be read,
  -- `NewEvaluator` takes a claim, and that claim grants the local VM auth.login, data.read_secure and
  -- the reading of /api/v1/health, but neither data.write nor the writing of /api/v1/health.
  pub go_main_iff :
      (args : List Text) (d d' : Disk)
      → (main G read_file args d ≡ (ok tt, d')) ↔ IsPassed args d d'
  unfolding main
  go_main_iff args d d' = (
    main-eq-ok args d d',
    λ p. ap (λ a. main G read_file a d) p.called ∙ evaluate_of_IsPassed args d d' p,
  )
