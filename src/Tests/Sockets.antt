-- ===== src/Tests/Sockets.antt =====
-- Sockets in memory, and the agent's dialling and listening at concrete inputs.
use mathlib.Core.Option.{some-injective}
use vm_auth_scope.Base.{
  ℕ, zero, suc, ◌+◌, ◌≡◌, ◌↔◌, refl, sym, ap, ◌∙◌, Bool, true, false, Option, none, some, List, [],
  ◌∷◌, codes, text_beq,
}
use vm_auth_scope.Agent.Dial.{Sockets, connect_with_local_port}
use vm_auth_scope.Agent.Dial.Descriptors.{IsSockets, handed, connect_with_local_port-IsBalanced}
use vm_auth_scope.Agent.Dial.Outcomes.{IsDialled, connect_with_local_port_iff}
use vm_auth_scope.Agent.Client.{host_cid}
use vm_auth_scope.Agent.Loop.{request_each, run_agent}
use vm_auth_scope.Agent.Loop.Kept.{IsAlone, IsServed, run_agent-IsServed}
use vm_auth_scope.Base.Result.{Result, ok, err, panic}
use vm_auth_scope.Io.{IoError, addr_in_use, lift}
use vm_auth_scope.Io.Memory.{memory, memory-IsFiles}
use vm_auth_scope.Io.Pipe.{pipe, pipe-IsStream}
use vm_auth_scope.Tests.Codecs.{request_json, response_json}
use vm_auth_scope.Tests.Crates.{pki}
use vm_auth_scope.Tests.Disks.{svc, blank_disk, differ}
use vm_auth_scope.Tests.Requests.{agent, dial, answered, after_disk, after_pipe, requested}

abbrev pub in_use : IoError
in_use = record { kind = addr_in_use; shown = codes "Address in use" }

-- The open descriptors, the latest first, the next one, and how long the port is still taken.
pub record Net : Type 0 where
  pub open_fds : List ℕ
  pub next_fd : ℕ
  pub taken : ℕ

abbrev pub without_first : List ℕ → List ℕ
without_first [] = []
without_first (x ∷ l) = l

abbrev pub before : ℕ → ℕ
before zero = zero
before (suc n) = n

abbrev pub is_zero : ℕ → Bool
is_zero zero = true
is_zero (suc n) = false

abbrev pub sockets : Sockets
sockets = record {
  Net = Net;
  socket = λ n.
      (some n.next_fd, record n { open_fds = n.next_fd ∷ n.open_fds; next_fd = n.next_fd + 1 });
  last_os_error = λ n. in_use;
  setsockopt = λ fd n. n;
  bind = λ fd port n. (is_zero n.taken, n);
  connect = λ fd cid port n. (true, n);
  adopt = λ fd n. (ok tt, n);
  close = λ fd n. record n { open_fds = without_first n.open_fds };
  sleep = λ n. record n { taken = before n.taken };
}

made_one : {fd : ℕ} {n m : Net} → ◌≡◌ {A = Option ℕ × Net} (some fd, n) (none, m) → ⊥
made_one h = cc (ap (λ (o : Option ℕ × Net). o.0) h)

adopted_err :
    {e : IoError} {n m : Net} → ◌≡◌ {A = Result IoError (Unit {0}) × Net} (ok tt, n) (err e, m) → ⊥
adopted_err h = cc (ap (λ (o : Result IoError (Unit {0}) × Net). o.0) h)

adopted_panic : {n m : Net} → ◌≡◌ {A = Result IoError (Unit {0}) × Net} (ok tt, n) (panic, m) → ⊥
adopted_panic h = cc (ap (λ (o : Result IoError (Unit {0}) × Net). o.0) h)

abbrev sockets-IsSockets : IsSockets sockets
sockets-IsSockets = record {
  open_fds = λ n. n.open_fds;
  socket-some = λ n m fd h.
      ap (λ (o : Option ℕ × Net). o.1.open_fds) (sym h)
      ∙ ap (λ x. x ∷ n.open_fds) (some-injective n.next_fd fd (ap (λ (o : Option ℕ × Net). o.0) h));
  socket-none = λ n m h. absurd (made_one h);
  setsockopt-kept = λ fd n. refl;
  bind-kept = λ fd port n. refl;
  connect-kept = λ fd cid port n. refl;
  adopt-ok = λ fd n m h. ap (λ (o : Result IoError (Unit {0}) × Net). o.1.open_fds) (sym h);
  adopt-err = λ fd n m e l h. absurd (adopted_err h);
  adopt-panic = λ fd n m l h. absurd (adopted_panic h);
  close-open = λ fd n l h. ap without_first h;
  sleep-kept = λ n. refl;
}

-- The port is taken at the first attempt.
abbrev pub start : Net
start = record { open_fds = []; next_fd = 3; taken = 1 }

abbrev end : Net
end = record { open_fds = 4 ∷ []; next_fd = 5; taken = 0 }

connect_with_local_port-IsBalanced_example :
    (connect_with_local_port sockets 2 900 901 start).1.open_fds
    ≡ handed (connect_with_local_port sockets 2 900 901 start).0 []
connect_with_local_port-IsBalanced_example =
    connect_with_local_port-IsBalanced sockets sockets-IsSockets 2 900 901 start

connect_with_local_port_iff_example :
    (connect_with_local_port sockets 2 900 901 start ≡ (ok 4, end))
    ↔ IsDialled sockets 2 900 901 10 4 start end
connect_with_local_port_iff_example = connect_with_local_port_iff sockets 2 900 901 4 start end

-- The one entity of the agent.
alone :
    IsAlone pki pipe pipe-IsStream memory memory-IsFiles request_json response_json dial
      (λ s. s)
      (λ port s. (ok tt, s))
      (λ s. s)
      svc
      []
unfolding text_beq
alone = record {
  key_apart = differ refl;
  ca_apart = differ refl;
  ca_key_apart = differ refl;
  cert_clear = tt;
  key_clear = tt;
  ca_clear = tt;
}

run_agent-IsServed_example :
    IsServed pki pipe pipe-IsStream memory memory-IsFiles request_json response_json dial
      (λ s. s)
      (λ port s. (ok tt, s))
      (λ s. s)
      2
      agent
      svc
      answered
      after_pipe
      (run_agent pki pipe memory request_json response_json dial
        (λ s. s)
        (λ port s. (ok tt, s))
        (λ s. s)
        none
        agent
        (λ i. (tt, tt))
        (blank_disk, answered)).1.0
unfolding request_each lift host_cid
run_agent-IsServed_example =
    run_agent-IsServed pki pipe pipe-IsStream memory memory-IsFiles request_json response_json dial
      (λ s. s) (λ port s. (ok tt, s)) (λ s. s) none agent (λ i. (tt, tt)) [] svc []
      (blank_disk, answered) blank_disk after_disk answered after_pipe refl alone refl requested
