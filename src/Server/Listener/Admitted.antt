-- ===== src/Server/Listener/Admitted.antt =====
-- Which connections are served, independently of the accept loop.
use vm_auth_scope.Base.{
  ℕ, ◌≡◌, ◌≢◌, refl, ap, Bool-cases, inl, inr, List, [], ◌∷◌, nat_beq, nat_beq_iff,
}
use vm_auth_scope.Io.{IoError}
use vm_auth_scope.Server.Config.{HostConfig}
use vm_auth_scope.Server.Listener.{Accepted, connection, failed, Task, spawned, accept_loop}

-- The tasks for what `accept` has given: one for each connection from the peers' port, with its stream
-- and the CID that came with it, and none for a connection from another port or for an error.
pub data IsTasks {State : Type 0} (config : HostConfig)
    : List (Accepted State) → List (Task State) → Type 0 where
  no_answers : IsTasks config [] []
  served :
      (stream : State) (cid port : ℕ) {answers : List (Accepted State)} {tasks : List (Task State)}
      → port ≡ config.peer_port
      → IsTasks config answers tasks
      → IsTasks config
          (connection stream cid port ∷ answers)
          (record { stream = stream; peer_cid = cid } ∷ tasks)
  turned_away :
      (stream : State) (cid port : ℕ) {answers : List (Accepted State)} {tasks : List (Task State)}
      → port ≢ config.peer_port
      → IsTasks config answers tasks
      → IsTasks config (connection stream cid port ∷ answers) tasks
  not_accepted :
      (e : IoError) {answers : List (Accepted State)} {tasks : List (Task State)}
      → IsTasks config answers tasks
      → IsTasks config (failed e ∷ answers) tasks

module _ {State : Type 0} (config : HostConfig) where
  -- The accept loop spawns those tasks.
  pub accept_loop-IsTasks :
      (answers : List (Accepted State)) → IsTasks config answers (accept_loop config answers)
  unfolding accept_loop spawned
  accept_loop-IsTasks [] = no_answers
  accept_loop-IsTasks (failed e ∷ answers) = not_accepted e (accept_loop-IsTasks answers)
  accept_loop-IsTasks (connection stream cid port ∷ answers) =
      elim (Bool-cases (nat_beq port config.peer_port)) [
        | inl same ↦ rw same (
            served stream cid port ((nat_beq_iff port config.peer_port).0 same)
              (accept_loop-IsTasks answers))
        | inr other ↦ rw other (
            turned_away stream cid port (λ e. cc (other, (nat_beq_iff port config.peer_port).1 e))
              (accept_loop-IsTasks answers))
      ]

  -- There are no other tasks for the same answers.
  pub accept_loop_of_IsTasks :
      (answers : List (Accepted State)) (tasks : List (Task State))
      → IsTasks config answers tasks
      → accept_loop config answers ≡ tasks
  unfolding accept_loop spawned
  accept_loop_of_IsTasks _ _ no_answers = refl
  accept_loop_of_IsTasks _ _ (served stream cid port {answers} {tasks} same h) =
      rw ((nat_beq_iff port config.peer_port).1 same) (
        ap (λ l. record { stream = stream; peer_cid = cid } ∷ l)
          (accept_loop_of_IsTasks answers tasks h))
  accept_loop_of_IsTasks _ _ (turned_away stream cid port {answers} {tasks} differs h) =
      elim (Bool-cases (nat_beq port config.peer_port)) [
        | inl same ↦ absurd (differs ((nat_beq_iff port config.peer_port).0 same))
        | inr other ↦ rw other (accept_loop_of_IsTasks answers tasks h)
      ]
  accept_loop_of_IsTasks _ _ (not_accepted e {answers} {tasks} h) =
      accept_loop_of_IsTasks answers tasks h
