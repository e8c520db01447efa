-- ===== src/Server/Listener/Schedule.antt =====
-- The daemon as a step relation: `accept` answers, or a spawned task runs to its end. The tasks
-- share only the configuration and the authority, which nothing changes.
pub mod Sound
pub mod Tasks
pub mod Bags
pub mod Replies
use mathlib.Core.Path.{subst}
use vm_auth_scope.Base.{
  ℕ, ◌≡◌, refl, sym, ap, ◌∙◌, Bool, true, false, Bool-cases, inl, inr, List, [], ◌∷◌, ◌++◌, map,
  All, All-append, All-append_left, All-append_right, Some, here, there, nat_beq, nat_beq_iff,
  arith, if◌then◌else◌,
}
use mathlib.Core.List.{Perm, perm_append_comm, perm_middle, append_assoc}
use mathlib.Core.List.Perm
use vm_auth_scope.Ca.Authority.{CertificateAuthority}
use vm_auth_scope.Ca.Pki.{Pki}
use vm_auth_scope.Ca.Signing.{Ambient}
use vm_auth_scope.Ca.Tokens.{Tokens}
use vm_auth_scope.Io.Stream.{Stream}
use vm_auth_scope.Proto.Json.{Json}
use vm_auth_scope.Proto.Wire.{CertRequest, CertResponse}
use vm_auth_scope.Server.Config.{HostConfig}
use vm_auth_scope.Server.Handler.{Setting, Ending, handle_connection}
use vm_auth_scope.Server.Listener.{Accepted, connection, failed, Task, spawned, accept_loop}

module _ (K : Tokens) (P : Pki) (S : Stream) (Q : Json CertRequest) (R : Json CertResponse)
    (config : HostConfig) (ca : CertificateAuthority) where
  open S use {State}

  -- A task that ended, with how it ended and what it left of its connection.
  pub record Ended : Type 0 where
    pub task : Task State
    pub ambient : Ambient K P
    pub outcome : Ending × State

  -- All answers of `accept` so far, latest first, the tasks that wait, and those that ended.
  pub record System : Type 0 where
    pub answers : List (Accepted State)
    pub waiting : List (Task State)
    pub ended : List Ended

  abbrev pub setting_of : Task State → Ambient K P → Setting K P
  setting_of task ambient = record {
    peer_cid = task.peer_cid;
    config = config;
    ca = ca;
    ambient = ambient;
  }

  pub data Step (y z : System) : Type 0 where
    answer :
        (a : Accepted State)
        → z ≡ record y { answers = a ∷ y.answers; waiting = spawned config a ++ y.waiting }
        → Step y z
    run :
        (front : List (Task State)) (task : Task State) (back : List (Task State))
        (ambient : Ambient K P)
        → y.waiting ≡ front ++ task ∷ back
        → z ≡ record y {
          waiting = front ++ back;
          ended =
              record {
                task = task;
                ambient = ambient;
                outcome = handle_connection K P S Q R (setting_of task ambient) task.stream;
              }
              ∷ y.ended;
        }
        → Step y z

  abbrev pub start : System
  start = record { answers = []; waiting = []; ended = [] }

  pub data Reach : System → Type 0 where
    begin : Reach start
    next : {y z : System} → Reach y → Step y z → Reach z
