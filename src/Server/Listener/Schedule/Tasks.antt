-- ===== src/Server/Listener/Schedule/Tasks.antt =====
-- No task is lost or made up.
use mathlib.Core.Path.{subst}
use vm_auth_scope.Base.{sym, List, ◌∷◌, ◌++◌, map}
use mathlib.Core.List.{Perm, perm_append_comm, perm_middle, append_assoc}
use mathlib.Core.List.Perm
use vm_auth_scope.Ca.Authority.{CertificateAuthority}
use vm_auth_scope.Ca.Pki.{Pki}
use vm_auth_scope.Ca.Tokens.{Tokens}
use vm_auth_scope.Io.Stream.{Stream}
use vm_auth_scope.Proto.Json.{Json}
use vm_auth_scope.Proto.Wire.{CertRequest, CertResponse}
use vm_auth_scope.Server.Config.{HostConfig}
use vm_auth_scope.Server.Listener.{Task, spawned, accept_loop}
use vm_auth_scope.Server.Listener.Admitted.{IsTasks, accept_loop-IsTasks}
use vm_auth_scope.Server.Listener.Schedule.{Ended, System, Step, answer, run, Reach, begin, next}

module _ (K : Tokens) (P : Pki) (S : Stream) (Q : Json CertRequest) (R : Json CertResponse)
    (config : HostConfig) (ca : CertificateAuthority) where
  open S use {State}

  abbrev pub tasks : System K P S Q R config ca → List (Task State)
  tasks y = map (λ (e : Ended K P S Q R config ca). e.task) y.ended ++ y.waiting

  answer-tasks :
      (done more waiting spawned_before : List (Task State))
      → Perm (done ++ waiting) spawned_before
      → Perm (done ++ (more ++ waiting)) (more ++ spawned_before)
  answer-tasks done more waiting spawned_before p =
      let swapped = Perm.append_right waiting (perm_append_comm done more) in
      subst (λ l. Perm l (more ++ spawned_before)) (append_assoc done more waiting)
        (Perm.trans swapped (
          subst (λ l. Perm l (more ++ spawned_before)) (sym (append_assoc more done waiting))
            (Perm.append_left more p)))

  run-tasks :
      (done front : List (Task State)) (task : Task State) (back spawned_before : List (Task State))
      → Perm (done ++ (front ++ task ∷ back)) spawned_before
      → Perm (task ∷ (done ++ (front ++ back))) spawned_before
  run-tasks done front task back spawned_before p =
      let out = Perm.append_left done (perm_middle front back) in
      Perm.trans (Perm.symm (Perm.trans out (perm_middle done (front ++ back)))) p

  Step-tasks :
      {y z : System K P S Q R config ca}
      → Perm (tasks y) (accept_loop config y.answers)
      → Step K P S Q R config ca y z
      → Perm (tasks z) (accept_loop config z.answers)
  unfolding accept_loop
  Step-tasks {y} p (answer a e) =
      subst (λ (z : System K P S Q R config ca). Perm (tasks z) (accept_loop config z.answers))
        (sym e)
        (answer-tasks (map (λ (d : Ended K P S Q R config ca). d.task) y.ended) (spawned config a)
          y.waiting _ p)
  Step-tasks {y} p (run front task back ambient split e) =
      subst (λ (z : System K P S Q R config ca). Perm (tasks z) (accept_loop config z.answers))
        (sym e)
        (run-tasks (map (λ (d : Ended K P S Q R config ca). d.task) y.ended) front task back _ (
          subst
            (λ w.
              Perm (map (λ (d : Ended K P S Q R config ca). d.task) y.ended ++ w)
                (accept_loop config y.answers))
            split p))

  Reach-accept_loop :
      {y : System K P S Q R config ca}
      → Reach K P S Q R config ca y
      → Perm (tasks y) (accept_loop config y.answers)
  unfolding accept_loop
  Reach-accept_loop begin = Perm.nil
  Reach-accept_loop (next r s) = Step-tasks (Reach-accept_loop r) s

  -- At every moment, along every interleaving, the tasks that ended and those that wait are together,
  -- each as often, the following: one task for each connection that `accept` gave from the peers'
  -- port, with its stream and its CID, and none for other connections or errors.
  pub Reach-tasks :
      {y : System K P S Q R config ca}
      → Reach K P S Q R config ca y
      → (l : List (Task State)) × IsTasks config y.answers l × Perm (tasks y) l
  Reach-tasks {y} r =
      (accept_loop config y.answers, accept_loop-IsTasks config y.answers, Reach-accept_loop r)
