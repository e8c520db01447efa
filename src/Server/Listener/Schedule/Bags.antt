-- ===== src/Server/Listener/Schedule/Bags.antt =====
-- The daemon as two bags: of the tasks that wait, and of those that ended.
use mathlib.Core.List.{Perm}
use mathlib.Core.List.Perm
use mathlib.Core.List as List
use mathlib.Mathlib.Data.Multiset.Defs.{Multiset, of_list}
use mathlib.Mathlib.Data.Multiset.ZeroCons.{cons}
use vm_auth_scope.Base.{ℕ, ◌≡◌, List, []}
use vm_auth_scope.Ca.Authority.{CertificateAuthority}
use vm_auth_scope.Ca.Pki.{Pki}
use vm_auth_scope.Ca.Signing.{Ambient}
use vm_auth_scope.Ca.Tokens.{Tokens}
use vm_auth_scope.Io.{IoError, other}
use vm_auth_scope.Io.Stream.{Stream}
use vm_auth_scope.Proto.Json.{Json}
use vm_auth_scope.Proto.Wire.{CertRequest, CertResponse}
use vm_auth_scope.Server.Config.{HostConfig}
use vm_auth_scope.Server.Handler.{handle_connection}
use vm_auth_scope.Server.Listener.{Task}
use vm_auth_scope.Server.Listener.Schedule.{Ended, System, setting_of}

module _ (K : Tokens) (P : Pki) (S : Stream) (Q : Json CertRequest) (R : Json CertResponse)
    (config : HostConfig) (ca : CertificateAuthority) where
  open S use {State}

  -- The outcome of a task: that of the handler on its connection.
  abbrev pub served : Task State → Ambient K P → Ended K P S Q R config ca
  served task ambient = record {
    task = task;
    ambient = ambient;
    outcome = handle_connection K P S Q R (setting_of K P S Q R config ca task ambient) task.stream;
  }

  -- The specification: connections from the peers' port come in, others leave no trace, and those
  -- that came in are served, each once, in no order.
  pub record Bags : Type 0 where
    pub waiting : Multiset (Task State)
    pub ended : Multiset (Ended K P S Q R config ca)

  pub data Move (b c : Bags) : Type 0 where
    admit :
        (stream : State) (cid : ℕ)
        → c ≡ record b { waiting = cons (record { stream = stream; peer_cid = cid }) b.waiting }
        → Move b c
    ignore : c ≡ b → Move b c
    serve :
        (task : Task State) (rest : Multiset (Task State)) (ambient : Ambient K P)
        → b.waiting ≡ cons task rest
        → c ≡ record { waiting = rest; ended = cons (served task ambient) b.ended }
        → Move b c

  abbrev pub empty : Bags
  empty = record { waiting = of_list []; ended = of_list [] }

  pub data Reachable : Bags → Type 0 where
    at_first : Reachable empty
    move : {b c : Bags} → Reachable b → Move b c → Reachable c

  abbrev pub bags_of : System K P S Q R config ca → Bags
  bags_of y = record { waiting = of_list y.waiting; ended = of_list y.ended }

  -- What the daemon can be, for some bags.
  abbrev Realised : (System K P S Q R config ca → Type 0) → Bags → Type 0
  Realised Is c = ∥ ((z : System K P S Q R config ca) × Is z × (bags_of z ≡ c)) ∥₁

  refused : IoError
  refused = record { kind = other; shown = [] }
