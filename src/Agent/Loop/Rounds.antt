-- ===== src/Agent/Loop/Rounds.antt =====
-- The rounds of the loop over the entities.
use mathlib.Core.Path.{subst}
use vm_auth_scope.Base.{ℕ, ◌+◌, ◌≡◌, ◌≢◌, refl, sym, ◌∙◌, ◌↔◌, Option, List, [], ◌∷◌, Text}
use vm_auth_scope.Agent.Client.{request_cert}
use vm_auth_scope.Agent.Config.{AgentConfig, EntityEntry}
use vm_auth_scope.Agent.Loop.{Draws, request_one, request_each}
use vm_auth_scope.Base.Result.{Result, ok, err, panic}
use vm_auth_scope.Ca.Pki.{Pki}
use vm_auth_scope.Io.{AnyError, Run, lift}
use vm_auth_scope.Io.Files.{Files}
use vm_auth_scope.Io.Laws.{outcome, state_after, >>=-eq-ok, >>=_of_ok, lift-eq-ok}
use vm_auth_scope.Io.Stream.{Stream}
use vm_auth_scope.Proto.Json.{Json}
use vm_auth_scope.Proto.Wire.{CertRequest, CertResponse}

module _ (P : Pki) (S : Stream) (F : Files) (Q : Json CertRequest) (R : Json CertResponse)
    (connect : ℕ → ℕ → ℕ → Run S.State AnyError (Unit {0})) (hang_up : S.State → S.State)
    (variable : Option Text) (config : AgentConfig) (draws : Draws P) where
  open S use {State}
  open F use {Disk}

  -- One request for each entity, in their order, each from what the one before left: it succeeded or
  -- failed, but did not panic, and its connection is dropped.
  pub data IsAsked : ℕ → List EntityEntry → Disk × State → Disk × State → Type 0 where
    asked_all : {i : ℕ} {w : Disk × State} → IsAsked i [] w w
    asked :
        {i : ℕ} {entity : EntityEntry} {entities : List EntityEntry} {w w' : Disk × State}
        (r : Result AnyError (Unit {0})) (d : Disk) (s : State)
        → request_cert P S F Q R connect variable config entity (draws i).0 (draws i).1 w
          ≡ (r, (d, s))
        → r ≢ panic
        → IsAsked (i + 1) entities (d, hang_up s) w'
        → IsAsked i (entity ∷ entities) w w'

  round-IsAsked :
      (i : ℕ) (entity : EntityEntry) (entities : List EntityEntry) (w v w' : Disk × State)
      (out : Result AnyError (Unit {0}) × (Disk × State))
      → request_cert P S F Q R connect variable config entity (draws i).0 (draws i).1 w ≡ out
      → request_one P S F Q R connect hang_up variable config (draws i) entity w ≡ (ok tt, v)
      → IsAsked (i + 1) entities v w'
      → IsAsked i (entity ∷ entities) w w'
  unfolding request_one
  round-IsAsked i entity entities w v w' (ok x, (d, s)) e h later =
      asked (ok x) d s e (λ p. cc p)
        (subst (λ x. IsAsked (i + 1) entities x w') (sym (state_after (rw e at h))) later)
  round-IsAsked i entity entities w v w' (err x, (d, s)) e h later =
      asked (err x) d s e (λ p. cc p)
        (subst (λ x. IsAsked (i + 1) entities x w') (sym (state_after (rw e at h))) later)
  round-IsAsked i entity entities w v w' (panic, (d, s)) e h later =
      absurd (cc (outcome (rw e at h)))

  round_of :
      (i : ℕ) (entity : EntityEntry) (w : Disk × State) (r : Result AnyError (Unit {0})) (d : Disk)
      (s : State)
      → request_cert P S F Q R connect variable config entity (draws i).0 (draws i).1 w
        ≡ (r, (d, s))
      → r ≢ panic
      → request_one P S F Q R connect hang_up variable config (draws i) entity w
        ≡ (ok tt, (d, hang_up s))
  unfolding request_one
  round_of i entity w (ok x) d s e calm = rw e refl
  round_of i entity w (err x) d s e calm = rw e refl
  round_of i entity w panic d s e calm = absurd (calm refl)

  request_each-IsAsked :
      (i : ℕ) (entities : List EntityEntry) (w w' : Disk × State)
      → request_each P S F Q R connect hang_up variable config draws i entities w ≡ (ok tt, w')
      → IsAsked i entities w w'
  unfolding request_each
  request_each-IsAsked i [] w w' h = subst (IsAsked i [] w) (lift-eq-ok _ w h).1 asked_all
  request_each-IsAsked i (entity ∷ entities) w w' h =
      let (_, v, e, h') = >>=-eq-ok _ _ w h in
      round-IsAsked i entity entities w v w' _ refl e
        (request_each-IsAsked (i + 1) entities v w' h')

  request_each_of_IsAsked :
      (i : ℕ) (entities : List EntityEntry) (w w' : Disk × State)
      → IsAsked i entities w w'
      → request_each P S F Q R connect hang_up variable config draws i entities w ≡ (ok tt, w')
  unfolding request_each lift
  request_each_of_IsAsked _ _ _ _ asked_all = refl
  request_each_of_IsAsked _ _ _ _ (asked {i} {entity} {entities} {w} {w'} r d s e calm later) =
      >>=_of_ok _ _ w (round_of i entity w r d s e calm)
      ∙ request_each_of_IsAsked (i + 1) entities (d, hang_up s) w' later

  pub request_each_iff :
      (i : ℕ) (entities : List EntityEntry) (w w' : Disk × State)
      → (request_each P S F Q R connect hang_up variable config draws i entities w ≡ (ok tt, w'))
        ↔ IsAsked i entities w w'
  request_each_iff i entities w w' =
      (request_each-IsAsked i entities w w', request_each_of_IsAsked i entities w w')
