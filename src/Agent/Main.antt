-- ===== src/Agent/Main.antt =====
-- apps/rust-apps/auth-scope-agent/src/main.rs. An error is the code of `process::exit`; clap is a
-- parameter, which gives the options, or the code with which it ends the process itself.
pub mod Running
use vm_auth_scope.Base.{ℕ, Option, Text, ◌==◌, nat_eq, if◌then◌else◌}
use vm_auth_scope.Agent.Client.{on_disk}
use vm_auth_scope.Agent.Config.{AgentConfig, from_file}
use vm_auth_scope.Agent.Dial.{Sockets, stream_to}
use vm_auth_scope.Agent.Loop.{Draws, run_agent}
use vm_auth_scope.Base.Result.{Result, ok, err}
use vm_auth_scope.Ca.Pki.{Pki}
use vm_auth_scope.Io.{AnyError, IoError, Run, ◌>>=◌, ◌>>◌, lift, wrap}
use vm_auth_scope.Io.Files.{Files}
use vm_auth_scope.Io.Stream.{Stream}
use vm_auth_scope.Proto.Json.{Json}
use vm_auth_scope.Proto.Wire.{CertRequest, CertResponse}

pub record Cli : Type 0 where
  pub config : Text

unfoldable pub require_root : ℕ → Result ℕ (Unit {0})
require_root uid = if uid == 0 then ok tt else err 1

module _ (P : Pki) (S : Stream) (F : Files) (Q : Json CertRequest) (R : Json CertResponse)
    (J : Json AgentConfig) (N : Sockets) (net : S.State → N.Net)
    (attach : Option ℕ → S.State → N.Net → S.State) (hang_up : S.State → S.State)
    (listen : ℕ → Run S.State IoError (Unit {0})) (pause : S.State → S.State) where
  open S use {State}
  open F use {Disk, read_to_string}

  -- `AgentConfig::from_file`, on the disk.
  unfoldable pub config_from_disk : Text → Run Disk AnyError AgentConfig
  config_from_disk path d = let (r, d') = read_to_string path d in (from_file J (λ _. r) path, d')

  unfoldable pub main : ℕ → Result ℕ Cli → Option Text → Draws P → Run (Disk × State) ℕ (Unit {0})
  main uid parsed variable draws = do
    lift (require_root uid)
    cli ← lift parsed
    cfg ← wrap (λ e. 1) (on_disk (config_from_disk cli.config))
    wrap (λ e. 1)
        (run_agent P S F Q R (stream_to N net attach) hang_up listen pause variable cfg draws)
