-- ===== src/Server/Main.antt =====
-- apps/rust-apps/auth-scope-server/src/main.rs. An error is the code of `process::exit`; clap is a
-- parameter, which gives the options, or the code with which it ends the process itself.
pub mod Startup
use vm_auth_scope.Base.{ℕ, Bool, false, List, Bytes, Text, ◌==◌, nat_eq, if◌then◌else◌}
use vm_auth_scope.Base.Result.{Result, ok, err, map_err}
use vm_auth_scope.Ca.Authority.{CertificateAuthority}
use vm_auth_scope.Ca.Error.{CaError}
use vm_auth_scope.Ca.Pki.{Pki}
use vm_auth_scope.Ca.Storage.{load, init}
use vm_auth_scope.Io.{AnyError, IoError, Run, ◌>>=◌, ◌>>◌, lift, wrap}
use vm_auth_scope.Io.Files.{Files}
use vm_auth_scope.Proto.Json.{Json}
use vm_auth_scope.Server.Config.{HostConfig, from_file}
use vm_auth_scope.Server.Listener.{Accepted, Task, run_listener}

pub record Cli : Type 0 where
  pub config : Text
  pub genkey : Bool

-- The daemon while it listens: what it was started with, and the tasks that it has spawned.
pub record Started (State : Type 0) : Type 0 where
  pub config : HostConfig
  pub ca : CertificateAuthority
  pub tasks : List (Task State)

unfoldable pub require_root : ℕ → Result ℕ (Unit {0})
require_root uid = if uid == 0 then ok tt else err 1

module _ (F : Files) (P : Pki) (certs : Text → List (Result IoError Bytes))
    (J : Json HostConfig) where
  open F use {Disk, read_to_string}
  open P use {Draw}

  -- `HostConfig::from_file`, on the disk.
  unfoldable pub config_from_disk : Text → Run Disk AnyError HostConfig
  config_from_disk path d = let (r, d') = read_to_string path d in (from_file J (λ _. r) path, d')

  unfoldable pub authority : Bool → HostConfig → Draw → Draw → Run Disk CaError CertificateAuthority
  authority genkey cfg key_draw cert_draw =
      if genkey
      then init F P certs cfg.ca_cert_path cfg.ca_key_path false key_draw cert_draw
      else load F P certs cfg.ca_cert_path cfg.ca_key_path

  module _ {State : Type 0} where
    -- `answers` is what `accept` has given.
    unfoldable pub main :
        ℕ
        → Result ℕ Cli
        → Draw
        → Draw
        → (ℕ → Result IoError (Unit {0}))
        → List (Accepted State)
        → Run Disk ℕ (Started State)
    main uid parsed key_draw cert_draw bind answers = do
      lift (require_root uid)
      cli ← lift parsed
      cfg ← wrap (λ e. 1) (config_from_disk cli.config)
      ca ← wrap (λ e. 1) (authority cli.genkey cfg key_draw cert_draw)
      tasks ← lift (map_err (λ e. 1) (run_listener bind cfg answers))
      lift (ok (record { config = cfg; ca = ca; tasks = tasks }))
