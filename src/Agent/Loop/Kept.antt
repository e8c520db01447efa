-- ===== src/Agent/Loop/Kept.antt =====
-- What `run_agent` leaves on disk for an entity whose request succeeded.
use vm_auth_scope.Base.{ℕ, ◌≡◌, ap, ◌∙◌, Option, List, ◌∷◌, ◌++◌, All, Bytes, Text, length, arith}
use vm_auth_scope.Agent.Client.{host_cid, on_network, request_cert}
use vm_auth_scope.Agent.Client.Requested.{IsExchanged, request_cert-IsObtained}
use vm_auth_scope.Agent.Config.{AgentConfig, EntityEntry}
use vm_auth_scope.Agent.Csr.{GeneratedCsr}
use vm_auth_scope.Agent.Loop.{Draws, secure, request_each, run_agent}
use vm_auth_scope.Agent.Loop.Others.{on_network-Keeps, IsClear, request_each-IsStored}
use vm_auth_scope.Agent.Store.Stored.{IsStored, kept-IsStored}
use vm_auth_scope.Base.Result.{ok}
use vm_auth_scope.Ca.Pki.{Pki}
use vm_auth_scope.Io.{AnyError, IoError, Run, ◌>>=◌}
use vm_auth_scope.Io.Files.{Files, IsFiles}
use vm_auth_scope.Io.Laws.{follow-Keeps}
use vm_auth_scope.Io.Stream.{Stream, IsStream}
use vm_auth_scope.Proto.Json.{Json}
use vm_auth_scope.Proto.Wire.{CertRequest, CertResponse, issued}

module _ (P : Pki) (S : Stream) (N : IsStream S) (F : Files) (L : IsFiles F) (Q : Json CertRequest)
    (R : Json CertResponse) (connect : ℕ → ℕ → ℕ → Run S.State AnyError (Unit {0}))
    (hang_up : S.State → S.State) (listen : ℕ → Run S.State IoError (Unit {0}))
    (pause : S.State → S.State) where
  open S use {State}
  open F use {Disk}
  open L use {entry, Apart}

  -- The paths of the entity lead to three files, and to none of the others'.
  pub record IsAlone (entity : EntityEntry) (others : List EntityEntry) : Type 0 where
    pub key_apart : Apart entity.key_path entity.cert_path
    pub ca_apart : Apart entity.ca_path entity.cert_path
    pub ca_key_apart : Apart entity.ca_path entity.key_path
    pub cert_clear : All (IsClear P S F L Q R connect hang_up entity.cert_path) others
    pub key_clear : All (IsClear P S F L Q R connect hang_up entity.key_path) others
    pub ca_clear : All (IsClear P S F L Q R connect hang_up entity.ca_path) others

  -- The entity's credentials: the pair that the server gave for a key, and that key.
  pub record IsServed (cid : ℕ) (config : AgentConfig) (entity : EntityEntry) (s t : State)
      (d : Disk) : Type 0 where
    pub generated : GeneratedCsr
    pub cert_pem : Text
    pub ca_pem : Text
    pub exchanged :
        IsExchanged P S N F L Q R connect cid config entity generated (issued cert_pem ca_pem) s t
    pub cert_stored :
        IsStored F L d entity.cert_path cert_pem entity.cert_mode entity.owner_uid entity.owner_gid
    pub key_stored :
        IsStored F L d entity.key_path generated.key_pem entity.key_mode entity.owner_uid
          entity.owner_gid
    pub ca_stored :
        IsStored F L d entity.ca_path ca_pem entity.cert_mode entity.owner_uid entity.owner_gid

  module _ (variable : Option Text) (config : AgentConfig) (draws : Draws P) where
    abbrev agent : Run (Disk × State) AnyError (Unit {0})
    agent = run_agent P S F Q R connect hang_up listen pause variable config draws

    -- The listener's part leaves the disk alone.
    agent-disk :
        (w : Disk × State) (q : Text)
        → entry (agent w).1.0 q
          ≡ entry
              (request_each P S F Q R connect hang_up variable config draws 0 config.entities w).1.0
              q
    unfolding run_agent ◌>>=◌
    agent-disk w q =
        follow-Keeps (λ (v : Disk × State). entry v.0 q)
          (request_each P S F Q R connect hang_up variable config draws 0 config.entities w)
          (λ _. on_network (secure listen pause 10 config.client_port))
          (λ _. on_network-Keeps (λ d. entry d q) _)

    -- When the request for an entity succeeds in the loop of `run_agent`, whatever the others come
    -- to and however the agent ends, the disk holds at the end the certificate and the authority's
    -- that the server gave for it, and its key, with its owner and modes, provided that its paths
    -- lead to three files and to none of the later entities'.
    pub run_agent-IsServed :
        (front : List EntityEntry) (entity : EntityEntry) (back : List EntityEntry)
        (w : Disk × State) (d₁ d₂ : Disk) (s₁ s₂ : State)
        → config.entities ≡ front ++ entity ∷ back
        → IsAlone entity back
        → request_each P S F Q R connect hang_up variable config draws 0 front w ≡ (ok tt, (d₁, s₁))
        → request_cert P S F Q R connect variable config entity
            (draws (length front)).0
            (draws (length front)).1
            (d₁, s₁)
          ≡ (ok tt, (d₂, s₂))
        → IsServed (host_cid variable) config entity s₁ s₂ (agent w).1.0
    run_agent-IsServed front entity back w d₁ d₂ s₁ s₂ all alone before done =
        let (generated, made, o) =
          request_cert-IsObtained P S N F L Q R connect entity alone.key_apart alone.ca_apart
            alone.ca_key_apart variable config (draws (length front)).0 (draws (length front)).1 d₁
            d₂ s₁ s₂ done in
        record {
          generated = generated;
          cert_pem = o.cert_pem;
          ca_pem = o.ca_pem;
          exchanged = o.exchanged;
          cert_stored = at_end o.cert_stored alone.cert_clear;
          key_stored = at_end o.key_stored alone.key_clear;
          ca_stored = at_end o.ca_stored alone.ca_clear;
        }
      where
        at_end :
            {path : Text} {content : Bytes} {mode_str : Text} {uid gid : ℕ}
            → IsStored F L d₂ path content mode_str uid gid
            → All (IsClear P S F L Q R connect hang_up path) back
            → IsStored F L (agent w).1.0 path content mode_str uid gid
        at_end {path} stored clear =
            kept-IsStored F L _ (agent w).1.0
              (agent-disk w path
                ∙ ap
                    (λ es.
                      entry
                        (request_each P S F Q R connect hang_up variable config draws 0 es w).1.0
                        path)
                    all)
              (request_each-IsStored P S F L Q R connect hang_up variable config draws 0
                (length front) front entity back w (d₁, s₁) d₂ s₂ (omega arith) before done stored
                clear)
