-- ===== src/Server/Listener/Schedule/Replies.antt =====
-- What the clients of the daemon get, along every run.
use vm_auth_scope.Base.{◌≤◌, ◌≡◌, sym, List, [], ◌∷◌, ◌++◌, Bytes, length, All, Some, here, there}
use mathlib.Core.Path.{subst}
use vm_auth_scope.Base.Result.{ok}
use vm_auth_scope.Ca.Authority.{CertificateAuthority}
use vm_auth_scope.Ca.Pki.{Pki}
use vm_auth_scope.Ca.Tokens.{Tokens}
use vm_auth_scope.Io.Stream.{Stream, IsStream, IsLive}
use vm_auth_scope.Proto.Codec.{max_msg_bytes}
use vm_auth_scope.Proto.Codec.Frames.{frame}
use vm_auth_scope.Proto.Json.{Json}
use vm_auth_scope.Proto.Wire.{CertRequest, CertResponse}
use vm_auth_scope.Server.Config.{HostConfig}
use vm_auth_scope.Server.Handler.Answer.{NoPanic, IsTotal, Answers, handle_connection_live}
use vm_auth_scope.Server.Listener.Schedule.{Ended, System, Reach, setting_of}
use vm_auth_scope.Server.Listener.Schedule.Sound.{IsAdmitted, IsServed, Reach-IsSound}

-- What holds of all holds of one.
of_All : {A : Type 0} (P : A → Type 0) (a : A) (l : List A) → All P l → Some (λ x. x ≡ a) l → P a
of_All P a [] h s = elim s [ ]
of_All P a (x ∷ l) h (here e) = subst P e h.0
of_All P a (x ∷ l) h (there s) = of_All P a l h.1 s

module _ (K : Tokens) (P : Pki) (S : Stream) (L : IsStream S) (A : IsLive S L)
    (Q : Json CertRequest) (R : Json CertResponse) (total : IsTotal R) (config : HostConfig)
    (ca : CertificateAuthority) where
  -- Along every interleaving of connections and tasks: an ended task, whose connection had stayed up
  -- and had the frame of a request of at most 4 MiB in front, is that of an accepted connection from
  -- the configured port with the CID that `accept` gave, and it sent exactly one frame, with the
  -- response that the checks of the request call for under that CID. Responses have a JSON form, and
  -- the signing for the request does not panic.
  pub Reach-Answers :
      {y : System K P S Q R config ca} (e : Ended K P S Q R config ca) (req : CertRequest)
      (payload rest : Bytes)
      → Reach K P S Q R config ca y
      → Some (λ x. x ≡ e) y.ended
      → A.Up e.task.stream
      → Q.from_slice payload ≡ ok req
      → length payload ≤ max_msg_bytes
      → L.unread e.task.stream ≡ frame payload ++ rest
      → NoPanic K P (setting_of K P S Q R config ca e.task e.ambient) req
      → IsAdmitted config y.answers e.task
        × Answers K P S L A Q R total
            (setting_of K P S Q R config ca e.task e.ambient)
            req
            e.task.stream
            e.outcome
  Reach-Answers {y} e req payload rest reached among up parsed fits front calm =
      let served =
        of_All (IsServed K P S Q R config ca y.answers) e y.ended
          (Reach-IsSound K P S Q R config ca reached).ended_served among in
      (
        served.admitted,
        subst
            (Answers K P S L A Q R total (setting_of K P S Q R config ca e.task e.ambient) req
              e.task.stream)
            (sym served.handled)
            (handle_connection_live K P S L A Q R total
              (setting_of K P S Q R config ca e.task e.ambient) req payload rest e.task.stream up
              parsed fits front calm),
      )
