-- ===== src/Server/Listener/Schedule/Sound.antt =====
-- What the spawned tasks are about and what becomes of each, along every run.
use mathlib.Core.Path.{subst}
use vm_auth_scope.Base.{
  ℕ, ◌≡◌, refl, sym, ap, Bool-cases, inl, inr, List, [], ◌∷◌, ◌++◌, All, All-append,
  All-append_left, All-append_right, Some, here, there, nat_beq, nat_beq_iff,
}
use vm_auth_scope.Ca.Authority.{CertificateAuthority}
use vm_auth_scope.Ca.Pki.{Pki}
use vm_auth_scope.Ca.Signing.{Ambient}
use vm_auth_scope.Ca.Tokens.{Tokens}
use vm_auth_scope.Io.Stream.{Stream}
use vm_auth_scope.Proto.Json.{Json}
use vm_auth_scope.Proto.Wire.{CertRequest, CertResponse}
use vm_auth_scope.Server.Config.{HostConfig}
use vm_auth_scope.Server.Handler.{handle_connection}
use vm_auth_scope.Server.Listener.{Accepted, connection, failed, Task, spawned}
use vm_auth_scope.Server.Listener.Schedule.{
  Ended, System, Step, answer, run, Reach, begin, next, setting_of,
}

-- The task is that of a connection, among those answered, from the configured port.
pub record IsAdmitted {State : Type 0} (config : HostConfig) (answers : List (Accepted State))
    (task : Task State) : Type 0 where
  pub accepted : Some (λ a. a ≡ connection task.stream task.peer_cid config.peer_port) answers

module _ {State : Type 0} (config : HostConfig) where
  more-IsAdmitted :
      (a : Accepted State) (answers : List (Accepted State)) (tasks : List (Task State))
      → All (IsAdmitted config answers) tasks
      → All (IsAdmitted config (a ∷ answers)) tasks
  more-IsAdmitted a answers [] h = tt
  more-IsAdmitted a answers (t ∷ ts) h =
      (record { accepted = there h.0.accepted }, more-IsAdmitted a answers ts h.1)

  spawned-IsAdmitted :
      (a : Accepted State) (answers : List (Accepted State))
      → All (IsAdmitted config (a ∷ answers)) (spawned config a)
  unfolding spawned
  spawned-IsAdmitted (failed e) answers = tt
  spawned-IsAdmitted (connection s cid port) answers =
      elim (Bool-cases (nat_beq port config.peer_port)) [
        | inr other ↦ rw other tt
        | inl same ↦ rw same (
          record {
            accepted =
                here
                  (ap (λ (p : ℕ). connection s cid p) ((nat_beq_iff port config.peer_port).0 same));
          },
          tt,
        )
      ]

module _ (K : Tokens) (P : Pki) (S : Stream) (Q : Json CertRequest) (R : Json CertResponse)
    (config : HostConfig) (ca : CertificateAuthority) where
  open S use {State}

  -- Every task is of an admitted connection, and an ended one did what the handler does on its
  -- connection alone.
  pub record IsServed (answers : List (Accepted State)) (e : Ended K P S Q R config ca)
      : Type 0 where
    pub admitted : IsAdmitted config answers e.task
    pub handled :
        e.outcome
        ≡ handle_connection K P S Q R
            (setting_of K P S Q R config ca e.task e.ambient)
            e.task.stream

  pub record IsSound (y : System K P S Q R config ca) : Type 0 where
    pub waiting_admitted : All (IsAdmitted config y.answers) y.waiting
    pub ended_served : All (IsServed y.answers) y.ended

  more-IsServed :
      (a : Accepted State) (answers : List (Accepted State))
      (done : List (Ended K P S Q R config ca))
      → All (IsServed answers) done
      → All (IsServed (a ∷ answers)) done
  more-IsServed a answers [] h = tt
  more-IsServed a answers (e ∷ es) h = (
    record { admitted = record { accepted = there h.0.admitted.accepted }; handled = h.0.handled },
    more-IsServed a answers es h.1,
  )

  answer-IsSound :
      (y : System K P S Q R config ca) (a : Accepted State)
      → IsSound y
      → IsSound (record y { answers = a ∷ y.answers; waiting = spawned config a ++ y.waiting })
  answer-IsSound y a h = record {
    waiting_admitted =
        All-append (IsAdmitted config (a ∷ y.answers)) (spawned config a) y.waiting
          (spawned-IsAdmitted config a y.answers)
          (more-IsAdmitted config a y.answers y.waiting h.waiting_admitted);
    ended_served = more-IsServed a y.answers y.ended h.ended_served;
  }

  run-IsSound :
      (y : System K P S Q R config ca) (front : List (Task State)) (task : Task State)
      (back : List (Task State)) (ambient : Ambient K P)
      → y.waiting ≡ front ++ task ∷ back
      → IsSound y
      → IsSound (record y {
        waiting = front ++ back;
        ended =
            record {
              task = task;
              ambient = ambient;
              outcome =
                  handle_connection K P S Q R
                    (setting_of K P S Q R config ca task ambient)
                    task.stream;
            }
            ∷ y.ended;
      })
  run-IsSound y front task back ambient split h =
      let P = IsAdmitted config y.answers in
      let all = subst (All P) split h.waiting_admitted in
      let here_on = All-append_right P front (task ∷ back) all in
      record {
        waiting_admitted =
            All-append P front back (All-append_left P front (task ∷ back) all) here_on.1;
        ended_served = (record { admitted = here_on.0; handled = refl }, h.ended_served);
      }

  Step-IsSound :
      {y z : System K P S Q R config ca} → IsSound y → Step K P S Q R config ca y z → IsSound z
  Step-IsSound {y} h (answer a e) = subst IsSound (sym e) (answer-IsSound y a h)
  Step-IsSound {y} h (run front task back ambient split e) =
      subst IsSound (sym e) (run-IsSound y front task back ambient split h)

  -- However `accept` answers and whatever order the spawned tasks run in: every waiting and every
  -- ended task is that of an accepted connection from the configured port, with the CID that
  -- `accept` gave, and an ended one's ending and stream are those of the handler run alone on its
  -- connection.
  pub Reach-IsSound : {y : System K P S Q R config ca} → Reach K P S Q R config ca y → IsSound y
  Reach-IsSound begin = record { waiting_admitted = tt; ended_served = tt }
  Reach-IsSound (next r s) = Step-IsSound (Reach-IsSound r) s
