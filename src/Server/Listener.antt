-- ===== src/Server/Listener.antt =====
-- apps/rust-apps/auth-scope-server/src/listener.rs. What `accept` gives, one after the other, is a
-- list; the spawned tasks are run by the environment, in any order.
pub mod Schedule
pub mod Admitted
use vm_auth_scope.Base.{ℕ, not, List, [], ◌∷◌, ◌++◌, ◌==◌, nat_eq, if◌then◌else◌}
use vm_auth_scope.Base.Result.{Result, ok, ◌>>=◌, map_err}
use vm_auth_scope.Io.{AnyError, IoError, io}
use vm_auth_scope.Server.Config.{HostConfig}

-- What one `accept` comes to: a stream with the peer's CID and port, or an error.
pub data Accepted (State : Type 0) : Type 0 where
  connection : State → ℕ → ℕ → Accepted State
  failed : IoError → Accepted State

-- A spawned task: its stream, and the peer's CID.
pub record Task (State : Type 0) : Type 0 where
  pub stream : State
  pub peer_cid : ℕ

-- One round of the loop: the tasks that it spawns.
unfoldable pub spawned : {State : Type 0} → HostConfig → Accepted State → List (Task State)
spawned config (failed e) = []
spawned config (connection stream cid port) =
    if not (port == config.peer_port) then [] else record { stream = stream; peer_cid = cid } ∷ []

-- The loop, as far as `accept` has answered.
unfoldable pub accept_loop :
    {State : Type 0} → HostConfig → List (Accepted State) → List (Task State)
accept_loop config [] = []
accept_loop config (a ∷ rest) = spawned config a ++ accept_loop config rest

-- `run_listener` ends only if the port cannot be bound.
unfoldable pub run_listener :
    {State : Type 0}
    → (ℕ → Result IoError (Unit {0}))
    → HostConfig
    → List (Accepted State)
    → Result AnyError (List (Task State))
run_listener bind config answers = do
  _ ← map_err io (bind config.server_port)
  ok (accept_loop config answers)
