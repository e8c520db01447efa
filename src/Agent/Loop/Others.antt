-- ===== src/Agent/Loop/Others.antt =====
-- What one entity's request does to the others'.
use mathlib.Core.Path.{ap₂}
use vm_auth_scope.Base.{
  ℕ, ◌+◌, ◌≡◌, ◌≢◌, refl, ap, ◌∙◌, Option, List, [], ◌∷◌, ◌++◌, All, Bytes, Text, length, arith,
}
use vm_auth_scope.Agent.Client.{on_disk, on_network, settle, request_cert}
use vm_auth_scope.Agent.Config.{AgentConfig, EntityEntry}
use vm_auth_scope.Agent.Csr.{GeneratedCsr}
use vm_auth_scope.Agent.Loop.{Draws, request_one, request_each}
use vm_auth_scope.Agent.Store.Kept.{store_entity_credentials-Keeps}
use vm_auth_scope.Agent.Store.Stored.{IsStored, kept-IsStored}
use vm_auth_scope.Base.Result.{Result, ok, err, panic}
use vm_auth_scope.Ca.Pki.{Pki}
use vm_auth_scope.Io.{AnyError, Run}
use vm_auth_scope.Io.Files.{Files, IsFiles}
use vm_auth_scope.Io.Laws.{Keeps, keeping, >>=_of_ok, >>=-eq-ok, lift-eq-ok, >>=-Keeps, lift-Keeps}
use vm_auth_scope.Io.Stream.{Stream}
use vm_auth_scope.Proto.Json.{Json}
use vm_auth_scope.Proto.Wire.{CertRequest, CertResponse, issued, error}

module _ {D S V E A : Type 0} (view : D → V) where
  on_disk-Keeps : (m : Run D E A) → Keeps view m → Keeps (λ (w : D × S). view w.0) (on_disk m)
  unfolding on_disk
  on_disk-Keeps m h = record { keeps = λ w. h.keeps w.0 }

  pub on_network-Keeps : (m : Run S E A) → Keeps (λ (w : D × S). view w.0) (on_network m)
  unfolding on_network
  on_network-Keeps m = record { keeps = λ w. refl }

module _ (P : Pki) (S : Stream) (F : Files) (L : IsFiles F) (Q : Json CertRequest)
    (R : Json CertResponse) (connect : ℕ → ℕ → ℕ → Run S.State AnyError (Unit {0}))
    (hang_up : S.State → S.State) where
  open S use {State}
  open F use {Disk}
  open L use {entry, Apart}

  -- The entity's paths lead to other files than the path.
  pub record IsClear (q : Text) (entity : EntityEntry) : Type 0 where
    pub cert_clear : Apart entity.cert_path q
    pub key_clear : Apart entity.key_path q
    pub ca_clear : Apart entity.ca_path q

  module _ {q : Text} where
    settle-Keeps :
        (entity : EntityEntry) (generated : GeneratedCsr) (resp : CertResponse)
        → IsClear q entity
        → Keeps (λ d. entry d q) (settle P S F Q R connect entity generated resp)
    unfolding settle
    settle-Keeps entity generated (issued cert_pem ca_pem) h =
        store_entity_credentials-Keeps F L entity cert_pem generated.key_pem ca_pem h.cert_clear
          h.key_clear h.ca_clear
    settle-Keeps entity generated (error text) h = search keeping

    request_cert-Keeps :
        (variable : Option Text) (config : AgentConfig) (entity : EntityEntry) (d d' : P.Draw)
        → IsClear q entity
        → Keeps
            (λ (w : Disk × State). entry w.0 q)
            (request_cert P S F Q R connect variable config entity d d')
    unfolding request_cert
    request_cert-Keeps variable config entity d d' h =
        >>=-Keeps _ _ _ (lift-Keeps _ _) (λ generated.
          >>=-Keeps _ _ _ (on_network-Keeps (λ d. entry d q) _)
            (λ resp. on_disk-Keeps (λ d. entry d q) _ (settle-Keeps entity generated resp h)))

    request_one-Keeps :
        (variable : Option Text) (config : AgentConfig) (draws : P.Draw × P.Draw)
        (entity : EntityEntry)
        → IsClear q entity
        → Keeps
            (λ (w : Disk × State). entry w.0 q)
            (request_one P S F Q R connect hang_up variable config draws entity)
    unfolding request_one
    request_one-Keeps variable config draws entity h = record {
      keeps = (request_cert-Keeps variable config entity draws.0 draws.1 h).keeps;
    }

    request_each-Keeps :
        (variable : Option Text) (config : AgentConfig) (draws : Draws P) (i : ℕ)
        (entities : List EntityEntry)
        → All (IsClear q) entities
        → Keeps
            (λ (w : Disk × State). entry w.0 q)
            (request_each P S F Q R connect hang_up variable config draws i entities)
    unfolding request_each
    request_each-Keeps variable config draws i [] h = lift-Keeps _ _
    request_each-Keeps variable config draws i (e ∷ es) h =
        >>=-Keeps _ _ _ (request_one-Keeps variable config (draws i) e h.0)
          (λ _. request_each-Keeps variable config draws (i + 1) es h.1)

  module _ (variable : Option Text) (config : AgentConfig) (draws : Draws P) where
    abbrev all_from : ℕ → List EntityEntry → Run (Disk × State) AnyError (Unit {0})
    all_from = request_each P S F Q R connect hang_up variable config draws

    abbrev one_at : ℕ → EntityEntry → Run (Disk × State) AnyError (Unit {0})
    one_at i entity = request_cert P S F Q R connect variable config entity (draws i).0 (draws i).1

    -- After the requests of the first entities those of the others go on from where they led.
    request_each-append :
        (i j : ℕ) (front back : List EntityEntry) (w w₁ : Disk × State)
        → i + length front ≡ j
        → all_from i front w ≡ (ok tt, w₁)
        → all_from i (front ++ back) w ≡ all_from j back w₁
    unfolding request_each
    request_each-append i j [] back w w₁ n h =
        let same = lift-eq-ok _ w h in ap₂ (λ k v. all_from k back v) (omega (arith, n)) same.1
    request_each-append i j (e ∷ front) back w w₁ n h =
        let (_, u, first, rest) = >>=-eq-ok _ _ w h in
        >>=_of_ok _ _ w first
        ∙ request_each-append (i + 1) j front back u w₁ (omega (arith, n)) rest

    -- A request that did not panic, whatever its outcome, does not stop the others: they go on from
    -- the disk that it left, its connection being closed.
    pub request_each-goes_on :
        (i j : ℕ) (front : List EntityEntry) (entity : EntityEntry) (back : List EntityEntry)
        (w w₁ : Disk × State) (r : Result AnyError (Unit {0})) (d : Disk) (s : State)
        → i + length front ≡ j
        → all_from i front w ≡ (ok tt, w₁)
        → one_at j entity w₁ ≡ (r, (d, s))
        → r ≢ panic
        → all_from i (front ++ entity ∷ back) w ≡ all_from (j + 1) back (d, hang_up s)
    unfolding request_each request_one
    request_each-goes_on i j front entity back w w₁ r d s n h e calm =
        request_each-append i j front (entity ∷ back) w w₁ n h
        ∙ >>=_of_ok _ _ w₁ (one_goes_on r e calm)
      where
        one_goes_on :
            (r : Result AnyError (Unit {0}))
            → one_at j entity w₁ ≡ (r, (d, s))
            → r ≢ panic
            → request_one P S F Q R connect hang_up variable config (draws j) entity w₁
              ≡ (ok tt, (d, hang_up s))
        one_goes_on (ok _) e calm = rw (e, request_one) refl
        one_goes_on (err x) e calm = rw (e, request_one) refl
        one_goes_on panic e calm = absurd (calm refl)

    -- What a request stored stays as it is until the loop has ended, however the later requests end,
    -- provided that their paths lead to other files.
    pub request_each-IsStored :
        (i j : ℕ) (front : List EntityEntry) (entity : EntityEntry) (back : List EntityEntry)
        (w w₁ : Disk × State) (d : Disk) (s : State) {path : Text} {content : Bytes}
        {mode_str : Text} {uid gid : ℕ}
        → i + length front ≡ j
        → all_from i front w ≡ (ok tt, w₁)
        → one_at j entity w₁ ≡ (ok tt, (d, s))
        → IsStored F L d path content mode_str uid gid
        → All (IsClear path) back
        → IsStored F L (all_from i (front ++ entity ∷ back) w).1.0 path content mode_str uid gid
    request_each-IsStored i j front entity back w w₁ d s {path} n h e stored clear =
        let ends = request_each-goes_on i j front entity back w w₁ (ok tt) d s n h e (λ x. cc x) in
        let kept =
          (request_each-Keeps variable config draws (j + 1) back clear).keeps (d, hang_up s) in
        kept-IsStored F L d _
          (ap (λ (o : Result AnyError (Unit {0}) × (Disk × State)). entry o.1.0 path) ends ∙ kept)
          stored
