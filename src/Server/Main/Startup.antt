-- ===== src/Server/Main/Startup.antt =====
-- When the daemon comes up, and what its start does to the disk.
use mathlib.Core.Path.{subst, ap₂}
use vm_auth_scope.Base.{ℕ, ◌≡◌, ◌↔◌, refl, sym, ap, ◌∙◌, Bool, true, false, List, Bytes, Text}
use vm_auth_scope.Base.Result.{Result, ok}
use vm_auth_scope.Base.Result.Laws as Result
use vm_auth_scope.Base.Result.Laws.{ok_injective, map_err-eq-ok, >>=-eq-ok, map_err_of_ok}
use vm_auth_scope.Ca.Pki.{Pki}
use vm_auth_scope.Ca.Authority.{CertificateAuthority}
use vm_auth_scope.Ca.Storage.{load, init}
use vm_auth_scope.Server.Listener.Admitted.{IsTasks, accept_loop-IsTasks, accept_loop_of_IsTasks}
use vm_auth_scope.Ca.Storage.Reload.{load-Keeps}
use vm_auth_scope.Io.{IoError, lift}
use vm_auth_scope.Io.Files.{Files, IsFiles}
use vm_auth_scope.Io.Files.Kept.{file_keeping}
use vm_auth_scope.Io.Laws as Laws
use vm_auth_scope.Io.Laws.{
  root_iff, outcome, state_after, Keeps, keeping, >>=_of_ok, wrap_of_ok, >>=-lift-eq-ok,
  >>=-lift-Keeps, lift-eq-ok, wrap-eq-ok,
}
use vm_auth_scope.Proto.Json.{Json}
use vm_auth_scope.Server.Config.{HostConfig, port_refused}
use vm_auth_scope.Server.Config.Loaded.{from_file_iff}
use vm_auth_scope.Proto.Json.Loaded.{IsLoaded}
use vm_auth_scope.Server.Listener.{Accepted, accept_loop, run_listener}
use vm_auth_scope.Server.Main.{Cli, Started, require_root, config_from_disk, authority, main}

module _ (F : Files) (P : Pki) (certs : Text → List (Result IoError Bytes))
    (J : Json HostConfig) where
  open F use {Disk}
  open P use {Draw}

  module _ {State : Type 0} (uid : ℕ) (parsed : Result ℕ Cli) (key_draw cert_draw : Draw)
      (bind : ℕ → Result IoError (Unit {0})) (answers : List (Accepted State)) where
    -- With `--genkey` the authority is the one that `init` makes anew under the two paths, and
    -- without it the one that `load` reads from them.
    pub data IsAuthorised (genkey : Bool) (cfg : HostConfig) (ca : CertificateAuthority)
        (d d' : Disk) : Type 0 where
      generated :
          genkey ≡ true
          → init F P certs cfg.ca_cert_path cfg.ca_key_path false key_draw cert_draw d ≡ (ok ca, d')
          → IsAuthorised genkey cfg ca d d'
      loaded :
          genkey ≡ false
          → load F P certs cfg.ca_cert_path cfg.ca_key_path d ≡ (ok ca, d')
          → IsAuthorised genkey cfg ca d d'

    authority-IsAuthorised :
        (genkey : Bool) (cfg : HostConfig) (ca : CertificateAuthority) (d d' : Disk)
        → authority F P certs J genkey cfg key_draw cert_draw d ≡ (ok ca, d')
        → IsAuthorised genkey cfg ca d d'
    unfolding authority
    authority-IsAuthorised true cfg ca d d' h = generated refl h
    authority-IsAuthorised false cfg ca d d' h = loaded refl h

    authority_of_IsAuthorised :
        (genkey : Bool) (cfg : HostConfig) (ca : CertificateAuthority) (d d' : Disk)
        → IsAuthorised genkey cfg ca d d'
        → authority F P certs J genkey cfg key_draw cert_draw d ≡ (ok ca, d')
    unfolding authority
    authority_of_IsAuthorised genkey cfg ca d d' (generated on h) = rw on h
    authority_of_IsAuthorised genkey cfg ca d d' (loaded off h) = rw off h

    -- Root, with options, a configuration with a port below 1000, an authority and the port bound.
    pub record IsUp (d d' : Disk) (up : Started State) : Type 0 where
      pub cli : Cli
      pub read : Disk
      pub root : uid ≡ 0
      pub options : parsed ≡ ok cli
      pub loaded :
          IsLoaded J
            (λ c. c.server_port)
            port_refused
            (λ _. (F.read_to_string cli.config d).0)
            cli.config
            up.config
      pub after_read : (F.read_to_string cli.config d).1 ≡ read
      pub authorised : IsAuthorised cli.genkey up.config up.ca read d'
      pub bound : bind up.config.server_port ≡ ok tt
      pub spawned : IsTasks up.config answers up.tasks

    require_root_iff : (require_root uid ≡ ok tt) ↔ (uid ≡ 0)
    unfolding require_root
    require_root_iff = root_iff uid

    listened :
        (cfg : HostConfig) (tasks : List _)
        → run_listener bind cfg answers ≡ ok tasks
        → (bind cfg.server_port ≡ ok tt) × (tasks ≡ accept_loop cfg answers)
    unfolding run_listener
    listened cfg tasks h =
        let (_, e, h') = >>=-eq-ok _ _ h in (map_err-eq-ok _ _ e, sym (ok_injective h'))

    main-IsUp :
        (d d' : Disk) (up : Started State)
        → main F P certs J uid parsed key_draw cert_draw bind answers d ≡ (ok up, d')
        → IsUp d d' up
    unfolding main config_from_disk
    main-IsUp d d' up h =
        let (_, root, h₁) = >>=-lift-eq-ok _ _ d h in
        let (cli, options, h₂) = >>=-lift-eq-ok _ _ d h₁ in
        let (cfg, d₁, e₃, h₃) = Laws.>>=-eq-ok _ _ d h₂ in
        let (ca, d₂, e₄, h₄) = Laws.>>=-eq-ok _ _ d₁ h₃ in
        let (tasks, ran, h₅) = >>=-lift-eq-ok _ _ d₂ h₄ in
        let (last, same) = lift-eq-ok _ d₂ h₅ in
        let got = wrap-eq-ok _ _ d e₃ in
        let (bound, spawned) = listened cfg tasks (map_err-eq-ok _ _ ran) in
        subst (IsUp d d') (ok_injective last) (record {
          cli = cli;
          read = d₁;
          root = require_root_iff.0 root;
          options = options;
          loaded = (from_file_iff J _ cli.config cfg).0 (outcome got);
          after_read = state_after got;
          authorised =
              authority-IsAuthorised cli.genkey cfg ca d₁ d'
                (wrap-eq-ok _ _ d₁ e₄ ∙ ap (λ x. (ok ca, x)) same);
          bound = bound;
          spawned = subst (IsTasks cfg answers) (sym spawned) (accept_loop-IsTasks cfg answers);
        })

    main_of_IsUp :
        (d d' : Disk) (up : Started State)
        → IsUp d d' up
        → main F P certs J uid parsed key_draw cert_draw bind answers d ≡ (ok up, d')
    unfolding main config_from_disk lift run_listener
    main_of_IsUp d d' up u =
        >>=_of_ok _ _ d (ap (λ r. (r, d)) (require_root_iff.1 u.root))
        ∙ >>=_of_ok _ _ d (ap (λ r. (r, d)) u.options)
        ∙ >>=_of_ok _ _ d (
            wrap_of_ok _ _ d (
              ap₂ (λ r x. (r, x)) ((from_file_iff J _ u.cli.config up.config).1 u.loaded)
                u.after_read))
        ∙ >>=_of_ok _ _ u.read (
            wrap_of_ok _ _ u.read
              (authority_of_IsAuthorised u.cli.genkey up.config up.ca u.read d' u.authorised))
        ∙ >>=_of_ok _ _ d' (
            ap (λ r. (r, d'))
              (map_err_of_ok _ _ (
                Result.>>=_of_ok _ _ (map_err_of_ok _ _ u.bound)
                ∙ ap ok (accept_loop_of_IsTasks up.config answers up.tasks u.spawned))))

    -- The daemon listens exactly when it was started by root, its configuration was read from the
    -- disk and has a port below 1000, the authority was made by `init` if the options have `--genkey`
    -- and read by `load` if they do not, and the port could be bound. Its tasks are then one for each
    -- connection that `accept` gives from the peers' port, in their order.
    pub main-IsUp_iff :
        (d d' : Disk) (up : Started State)
        → (main F P certs J uid parsed key_draw cert_draw bind answers d ≡ (ok up, d'))
          ↔ IsUp d d' up
    main-IsUp_iff d d' up = (main-IsUp d d' up, main_of_IsUp d d' up)

    module _ (L : IsFiles F) {q : Text} where
      config_from_disk-Keeps :
          (path : Text) → Keeps (λ d. L.entry d q) (config_from_disk F P certs J path)
      unfolding config_from_disk
      config_from_disk-Keeps path = record { keeps = λ d. L.read_to_string-entry path d q }

      authority-Keeps :
          (genkey : Bool) (cfg : HostConfig)
          → genkey ≡ false
          → Keeps (λ d. L.entry d q) (authority F P certs J genkey cfg key_draw cert_draw)
      unfolding authority
      authority-Keeps true cfg off = absurd (cc off)
      authority-Keeps false cfg off = load-Keeps F L P certs cfg.ca_cert_path cfg.ca_key_path

      -- A start without `--genkey` changes no file, whatever it comes to: not the authority's, nor
      -- any other.
      pub main-Keeps :
          ((cli : Cli) → parsed ≡ ok cli → cli.genkey ≡ false)
          → Keeps (λ d. L.entry d q) (main F P certs J uid parsed key_draw cert_draw bind answers)
      unfolding main
      main-Keeps off = >>=-lift-Keeps _ _ _ (λ _ _. >>=-lift-Keeps _ _ _ (λ cli options.
          search (file_keeping, config_from_disk-Keeps, authority-Keeps, off cli options) depth 12))
