-- ===== src/Tests/Starts.antt =====
-- The programs' starts at concrete inputs, on a disk in memory.
use vm_auth_scope.Base.{ℕ, ◌≡◌, ◌↔◌, sym, ap, false, true, none, [], ◌∷◌, codes}
use vm_auth_scope.Agent.Main as Start
use vm_auth_scope.Agent.Main.Running.{IsRunning, main-IsRunning_iff}
use vm_auth_scope.Base.Result.{Result, ok}
use vm_auth_scope.Base.Result.Laws.{ok_injective}
use vm_auth_scope.Io.Laws.{Keeps}
use vm_auth_scope.Io.Memory.{Disk, fresh, put, memory, memory-IsFiles}
use vm_auth_scope.Io.Pipe.{Pipe, pipe}
use vm_auth_scope.Proto.Json.{Json}
use vm_auth_scope.Server.Listener.{accept_loop}
use vm_auth_scope.Server.Main.{Cli, Started, main}
use vm_auth_scope.Server.Main.Startup.{IsUp, main-IsUp_iff, main-Keeps}
use vm_auth_scope.Tests.Codecs.{request_json, response_json}
use vm_auth_scope.Tests.Crates.{pki}
use vm_auth_scope.Tests.Disks.{blank_disk, blocks, new_ca}
use vm_auth_scope.Tests.Keys.{config}
use vm_auth_scope.Tests.Requests.{agent, answered, after_pipe}
use vm_auth_scope.Tests.Sockets.{sockets, start}
use vm_auth_scope.Tests.Services.{arrival}

-- A codec that reads the same value from any text.
abbrev always : {T : Type 0} → T → Json T
always v = record { to_vec = λ w. ok (codes "text"); from_slice = λ b. ok v }

abbrev config_disk : Disk
config_disk = put (codes "c") fresh blank_disk

abbrev with_key : Cli
with_key = record { config = codes "c"; genkey = true }

abbrev without_key : Cli
without_key = record { config = codes "c"; genkey = false }

abbrev up : Started Pipe
up = record { config = config; ca = new_ca; tasks = accept_loop config (arrival ∷ []) }

abbrev started_disk : Disk
started_disk =
    (main memory pki blocks (always config) 0 (ok with_key) tt tt (λ port. ok tt) (arrival ∷ [])
      config_disk).1

main-IsUp_iff_example :
    (main memory pki blocks
        (always config)
        0
        (ok with_key)
        tt
        tt
        (λ port. ok tt)
        (arrival ∷ [])
        config_disk
      ≡ (ok up, started_disk))
    ↔ IsUp memory pki blocks
        (always config)
        0
        (ok with_key)
        tt
        tt
        (λ port. ok tt)
        (arrival ∷ [])
        config_disk
        started_disk
        up
main-IsUp_iff_example =
    main-IsUp_iff memory pki blocks (always config) 0 (ok with_key) tt tt (λ port. ok tt)
      (arrival ∷ []) config_disk started_disk up

without_key-genkey :
    (cli : Cli) → ◌≡◌ {A = Result ℕ Cli} (ok without_key) (ok cli) → cli.genkey ≡ false
without_key-genkey cli h = sym (ap (λ (c : Cli). c.genkey) (ok_injective h))

main-Keeps_example :
    Keeps
      (λ (d : Disk). d (codes "key"))
      (main memory pki blocks
        (always config)
        0
        (ok without_key)
        tt
        tt
        (λ port. ok tt)
        (arrival ∷ []))
main-Keeps_example =
    main-Keeps memory pki blocks (always config) 0 (ok without_key) tt tt (λ port. ok tt)
      (arrival ∷ []) memory-IsFiles {q = codes "key"} without_key-genkey

abbrev agent_cli : Start.Cli
agent_cli = record { config = codes "c" }

abbrev ran_disk : Disk
ran_disk =
    (Start.main pki pipe memory request_json response_json (always agent) sockets (λ s. start)
      (λ o s n. s) (λ s. s) (λ port s. (ok tt, s)) (λ s. s) 0 (ok agent_cli) none (λ i. (tt, tt))
      (config_disk, answered)).1.0

main-IsRunning_iff_example :
    (Start.main pki pipe memory request_json response_json
        (always agent)
        sockets
        (λ s. start)
        (λ o s n. s)
        (λ s. s)
        (λ port s. (ok tt, s))
        (λ s. s)
        0
        (ok agent_cli)
        none
        (λ i. (tt, tt))
        (config_disk, answered)
      ≡ (ok tt, (ran_disk, after_pipe)))
    ↔ IsRunning pki pipe memory request_json response_json
        (always agent)
        sockets
        (λ s. start)
        (λ o s n. s)
        (λ s. s)
        (λ port s. (ok tt, s))
        (λ s. s)
        0
        (ok agent_cli)
        none
        (λ i. (tt, tt))
        config_disk
        ran_disk
        answered
        after_pipe
main-IsRunning_iff_example =
    main-IsRunning_iff pki pipe memory request_json response_json (always agent) sockets
      (λ s. start) (λ o s n. s) (λ s. s) (λ port s. (ok tt, s)) (λ s. s) 0 (ok agent_cli) none
      (λ i. (tt, tt)) config_disk ran_disk answered after_pipe
