-- ===== src/Agent/Loop.antt =====
-- `run_agent` of apps/rust-apps/auth-scope-agent/src/client.rs. Dropping a connection at the end of a
-- request, binding the listener and sleeping are parameters that move the network.
pub mod Others
pub mod Secured
pub mod Kept
pub mod Rounds
use vm_auth_scope.Base.{ℕ, zero, suc, ◌+◌, Option, List, [], ◌∷◌, ◌++◌, Text, codes}
use vm_auth_scope.Base.Number.{to_text}
use vm_auth_scope.Base.Result.{Result, ok, err, panic}
use vm_auth_scope.Agent.Client.{on_network, request_cert}
use vm_auth_scope.Agent.Config.{AgentConfig, EntityEntry}
use vm_auth_scope.Ca.Pki.{Pki}
use vm_auth_scope.Io.{AnyError, IoError, io, context, Run, ◌>>=◌, ◌>>◌, lift, wrap}
use vm_auth_scope.Io.Files.{Files}
use vm_auth_scope.Io.Stream.{Stream}
use vm_auth_scope.Proto.Json.{Json}
use vm_auth_scope.Proto.Wire.{CertRequest, CertResponse}

-- The match on a request's outcome: an error is logged, and the loop goes on.
abbrev pub logged : Result AnyError (Unit {0}) → Result AnyError (Unit {0})
logged panic = panic
logged _ = ok tt

abbrev pub not_secured : ℕ → IoError → AnyError
not_secured port e =
    context
      (codes "binding persistent listener to client port "
        ++ (to_text port ++ codes " to secure it"))
      (io e)

module _ {State : Type 0} (listen : ℕ → Run State IoError (Unit {0})) (pause : State → State) where
  -- What is done after an attempt that may be repeated.
  unfoldable pub or_again :
      (State → Result AnyError (Unit {0}) × State)
      → Result IoError (Unit {0}) × State
      → Result AnyError (Unit {0}) × State
  or_again again (ok _, s) = (ok tt, s)
  or_again again (err e, s) = again (pause s)
  or_again again (panic, s) = (panic, s)

  -- The loop around `VsockListener::bind`, with the number of repetitions that are left.
  unfoldable pub secure : ℕ → ℕ → Run State AnyError (Unit {0})
  secure zero port = wrap (not_secured port) (listen port)
  secure (suc left) port = λ s. or_again (secure left port) (listen port s)

-- The random draws of the requests, by their position.
abbrev pub Draws : Pki → Type 0
Draws P = ℕ → P.Draw × P.Draw

module _ (P : Pki) (S : Stream) (F : Files) (Q : Json CertRequest) (R : Json CertResponse)
    (connect : ℕ → ℕ → ℕ → Run S.State AnyError (Unit {0})) (hang_up : S.State → S.State) where
  open S use {State}
  open F use {Disk}

  -- One round of the loop.
  unfoldable pub request_one :
      Option Text
      → AgentConfig
      → P.Draw × P.Draw
      → EntityEntry
      → Run (Disk × State) AnyError (Unit {0})
  request_one variable config draws entity w =
      let (r, (d, s)) = request_cert P S F Q R connect variable config entity draws.0 draws.1 w in
      (logged r, (d, hang_up s))

  unfoldable pub request_each :
      Option Text
      → AgentConfig
      → Draws P
      → ℕ
      → List EntityEntry
      → Run (Disk × State) AnyError (Unit {0})
  request_each variable config draws i [] = lift (ok tt)
  request_each variable config draws i (entity ∷ entities) = do
    request_one variable config (draws i) entity
    request_each variable config draws (i + 1) entities

  -- `ok` is the state in which the listener is held and the task sleeps for ever.
  unfoldable pub run_agent :
      (ℕ → Run State IoError (Unit {0}))
      → (State → State)
      → Option Text
      → AgentConfig
      → Draws P
      → Run (Disk × State) AnyError (Unit {0})
  run_agent listen pause variable config draws = do
    request_each variable config draws 0 config.entities
    on_network (secure listen pause 10 config.client_port)
