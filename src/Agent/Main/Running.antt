-- ===== src/Agent/Main/Running.antt =====
-- When the agent stays up.
use mathlib.Core.Path.{ap₂}
use vm_auth_scope.Base.{ℕ, ◌≡◌, ◌↔◌, ap, ◌∙◌, Option, Text}
use vm_auth_scope.Agent.Client.{on_disk, on_network}
use vm_auth_scope.Agent.Config.{AgentConfig, port_too_large}
use vm_auth_scope.Agent.Config.Loaded.{agent_file_iff}
use vm_auth_scope.Agent.Dial.{Sockets, stream_to}
use vm_auth_scope.Agent.Loop.{Draws, secure, request_each, run_agent}
use vm_auth_scope.Agent.Loop.Rounds.{IsAsked, request_each_iff}
use vm_auth_scope.Agent.Loop.Secured.{IsHeld, secure_iff}
use vm_auth_scope.Agent.Main.{Cli, require_root, config_from_disk, main}
use vm_auth_scope.Base.Result.{Result, ok}
use vm_auth_scope.Ca.Pki.{Pki}
use vm_auth_scope.Io.{AnyError, IoError, Run, lift}
use vm_auth_scope.Io.Files.{Files}
use vm_auth_scope.Io.Laws.{
  root_iff, outcome, state_after, >>=-eq-ok, >>=_of_ok, >>=-lift-eq-ok, wrap-eq-ok, wrap_of_ok,
}
use vm_auth_scope.Io.Stream.{Stream}
use vm_auth_scope.Proto.Json.{Json}
use vm_auth_scope.Proto.Json.Loaded.{IsLoaded}
use vm_auth_scope.Proto.Wire.{CertRequest, CertResponse}

module _ {D S E A : Type 0} where
  on_network-eq-ok :
      (m : Run S E A) (d d' : D) (s t : S) (a : A)
      → on_network m (d, s) ≡ (ok a, (d', t))
      → (d ≡ d') × (m s ≡ (ok a, t))
  unfolding on_network
  on_network-eq-ok m d d' s t a h = (
    ap (λ (o : Result E A × (D × S)). o.1.0) h,
    ap₂ (λ x y. (x, y)) (outcome h) (ap (λ (o : Result E A × (D × S)). o.1.1) h),
  )

  on_disk-eq-ok :
      (m : Run D E A) (d d' : D) (s t : S) (a : A)
      → on_disk m (d, s) ≡ (ok a, (d', t))
      → (s ≡ t) × (m d ≡ (ok a, d'))
  unfolding on_disk
  on_disk-eq-ok m d d' s t a h = (
    ap (λ (o : Result E A × (D × S)). o.1.1) h,
    ap₂ (λ x y. (x, y)) (outcome h) (ap (λ (o : Result E A × (D × S)). o.1.0) h),
  )

require_root_iff : (uid : ℕ) → (require_root uid ≡ ok tt) ↔ (uid ≡ 0)
unfolding require_root
require_root_iff = root_iff

module _ (P : Pki) (S : Stream) (F : Files) (Q : Json CertRequest) (R : Json CertResponse)
    (J : Json AgentConfig) (N : Sockets) (net : S.State → N.Net)
    (attach : Option ℕ → S.State → N.Net → S.State) (hang_up : S.State → S.State)
    (listen : ℕ → Run S.State IoError (Unit {0})) (pause : S.State → S.State) where
  open S use {State}
  open F use {Disk, read_to_string}

  module _ (uid : ℕ) (parsed : Result ℕ Cli) (variable : Option Text) (draws : Draws P) where
    -- Root, a configuration with a port below 1000, the requests made, and the port held.
    pub record IsRunning (d d' : Disk) (s t : State) : Type 0 where
      pub cli : Cli
      pub config : AgentConfig
      pub read : Disk
      pub asked : State
      pub root : uid ≡ 0
      pub options : parsed ≡ ok cli
      pub loaded :
          IsLoaded J
            (λ c. c.server_port)
            port_too_large
            (λ _. (read_to_string cli.config d).0)
            cli.config
            config
      pub after_read : (read_to_string cli.config d).1 ≡ read
      pub requested :
          IsAsked P S F Q R
            (stream_to N net attach)
            hang_up
            variable
            config
            draws
            0
            config.entities
            (read, s)
            (d', asked)
      pub held : IsHeld listen pause config.client_port 10 asked t

    each :
        (cfg : AgentConfig) (w w' : Disk × State)
        → (request_each P S F Q R
              (stream_to N net attach)
              hang_up
              variable
              cfg
              draws
              0
              cfg.entities
              w
            ≡ (ok tt, w'))
          ↔ IsAsked P S F Q R
              (stream_to N net attach)
              hang_up
              variable
              cfg
              draws
              0
              cfg.entities
              w
              w'
    each cfg w w' =
        request_each_iff P S F Q R (stream_to N net attach) hang_up variable cfg draws 0
          cfg.entities w w'

    main-IsRunning :
        (d d' : Disk) (s t : State)
        → main P S F Q R J N net attach hang_up listen pause uid parsed variable draws (d, s)
          ≡ (ok tt, (d', t))
        → IsRunning d d' s t
    unfolding main config_from_disk run_agent
    main-IsRunning d d' s t h =
        let (_, root, h₁) = >>=-lift-eq-ok _ _ (d, s) h in
        let (cli, options, h₂) = >>=-lift-eq-ok _ _ (d, s) h₁ in
        let (cfg, (d₁, s₁), e₃, h₃) = >>=-eq-ok _ _ (d, s) h₂ in
        let (same, got) = on_disk-eq-ok _ d d₁ s s₁ cfg (wrap-eq-ok _ _ (d, s) e₃) in
        let (_, (d₂, s₂), e₄, h₄) = >>=-eq-ok _ _ (d₁, s₁) (wrap-eq-ok _ _ (d₁, s₁) h₃) in
        let (same', held) =
          on_network-eq-ok (secure listen pause 10 cfg.client_port) d₂ d' s₂ t tt h₄ in
        record {
          cli = cli;
          config = cfg;
          read = d₁;
          asked = s₂;
          root = (require_root_iff uid).0 root;
          options = options;
          loaded = (agent_file_iff J _ cli.config cfg).0 (outcome got);
          after_read = state_after got;
          requested = (each cfg (d₁, s) (d', s₂)).0 (
              ap
                (λ x.
                  request_each P S F Q R (stream_to N net attach) hang_up variable cfg draws 0
                    cfg.entities (d₁, x))
                same
              ∙ e₄
              ∙ ap (λ x. (ok tt, (x, s₂))) same');
          held = (secure_iff listen pause cfg.client_port 10 s₂ t).0 held;
        }

    main_of_IsRunning :
        (d d' : Disk) (s t : State)
        → IsRunning d d' s t
        → main P S F Q R J N net attach hang_up listen pause uid parsed variable draws (d, s)
          ≡ (ok tt, (d', t))
    unfolding main config_from_disk run_agent lift on_disk on_network
    main_of_IsRunning d d' s t o =
        >>=_of_ok _ _ (d, s) (ap (λ r. (r, (d, s))) ((require_root_iff uid).1 o.root))
        ∙ >>=_of_ok _ _ (d, s) (ap (λ r. (r, (d, s))) o.options)
        ∙ >>=_of_ok _ _ (d, s)
            (wrap_of_ok _ _ (d, s)
              (ap₂ (λ r x. (r, (x, s))) ((agent_file_iff J _ o.cli.config o.config).1 o.loaded)
                o.after_read))
        ∙ wrap_of_ok _ _ (o.read, s)
            (>>=_of_ok _ _ (o.read, s) ((each o.config (o.read, s) (d', o.asked)).1 o.requested)
              ∙ ap (λ (r : Result AnyError (Unit {0}) × State). (r.0, (d', r.1)))
                  ((secure_iff listen pause o.config.client_port 10 o.asked t).1 o.held))

    -- The agent comes to sleep behind its port exactly when it was started by root, its
    -- configuration was read and has a port below 1000, one request is made for each entity, in their
    -- order and each from the disk and network that the one before left, none of which panics but any
    -- of which may fail, and the port is held by one of eleven attempts.
    pub main-IsRunning_iff :
        (d d' : Disk) (s t : State)
        → (main P S F Q R J N net attach hang_up listen pause uid parsed variable draws (d, s)
            ≡ (ok tt, (d', t)))
          ↔ IsRunning d d' s t
    main-IsRunning_iff d d' s t = (main-IsRunning d d' s t, main_of_IsRunning d d' s t)
