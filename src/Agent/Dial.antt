-- ===== src/Agent/Dial.antt =====
-- `connect_with_local_port` of apps/rust-apps/auth-scope-agent/src/client.rs, over the calls of libc. A
-- call that gives a negative number is one that gives no descriptor, or `false`.
pub mod Descriptors
pub mod Rounds
pub mod Outcomes
use vm_auth_scope.Base.{
  ℕ, zero, suc, Bool, true, false, Option, none, some, List, [], ◌∷◌, ◌++◌, Text, codes,
}
use vm_auth_scope.Base.Number.{to_text}
use vm_auth_scope.Base.Result.{Result, ok, err, panic}
use vm_auth_scope.Io.{ErrorKind, addr_in_use, IoError, AnyError, io, message, Run, wrap}

-- `adopt` is `from_raw_fd` with `VsockStream::new`, which takes the descriptor over, and closes it if
-- it fails.
pub record Sockets : Type 1 where
  pub Net : Type 0
  pub socket : Net → Option ℕ × Net
  pub last_os_error : Net → IoError
  pub setsockopt : ℕ → Net → Net
  pub bind : ℕ → ℕ → Net → Bool × Net
  pub connect : ℕ → ℕ → ℕ → Net → Bool × Net
  pub adopt : ℕ → Run Net IoError (Unit {0})
  pub close : ℕ → Net → Net
  pub sleep : Net → Net

abbrev pub is_addr_in_use : IoError → Bool
is_addr_in_use e = elim e.kind [ addr_in_use ↦ true | _ ↦ false ]

abbrev pub bind_failed : ℕ → IoError → AnyError
bind_failed port e =
    message (codes "bind to client port " ++ (to_text port ++ (codes " failed: " ++ e.shown)))

abbrev pub connect_failed : IoError → AnyError
connect_failed e = message (codes "vsock connect failed: " ++ e.shown)

module _ (N : Sockets) where
  open N use {Net, socket, last_os_error, setsockopt, bind, connect, adopt, close, sleep}

  -- The descriptor of the new stream.
  unfoldable pub adopted : ℕ → Result IoError (Unit {0}) × Net → Result AnyError ℕ × Net
  adopted fd (ok _, n) = (ok fd, n)
  adopted fd (err e, n) = (err (io e), n)
  adopted fd (panic, n) = (panic, n)

  -- After `connect`.
  unfoldable pub connected : ℕ → Bool × Net → Result AnyError ℕ × Net
  connected fd (true, n) = adopted fd (adopt fd n)
  connected fd (false, n) = (err (connect_failed (last_os_error n)), close fd n)

  -- After a failed `bind`: `again` is the next round, if there is one.
  unfoldable pub refused : ℕ → Option (Run Net AnyError ℕ) → IoError → Net → Result AnyError ℕ × Net
  refused port none e n = (err (bind_failed port e), n)
  refused port (some again) e n = elim (is_addr_in_use e) [
    | true ↦ again (sleep n)
    | false ↦ (err (bind_failed port e), n)
  ]

  -- After `bind`.
  unfoldable pub bound :
      ℕ → ℕ → ℕ → Option (Run Net AnyError ℕ) → ℕ → Bool × Net → Result AnyError ℕ × Net
  bound cid port local_port again fd (true, n) = connected fd (connect fd cid port n)
  bound cid port local_port again fd (false, n) =
      refused local_port again (last_os_error n) (close fd n)

  -- After `socket`.
  unfoldable pub opened :
      ℕ → ℕ → ℕ → Option (Run Net AnyError ℕ) → Option ℕ × Net → Result AnyError ℕ × Net
  opened cid port local_port again (none, n) = (err (io (last_os_error n)), n)
  opened cid port local_port again (some fd, n) =
      bound cid port local_port again fd (bind fd local_port (setsockopt fd n))

  -- One round of the loop.
  unfoldable pub dial_round : ℕ → ℕ → ℕ → Option (Run Net AnyError ℕ) → Run Net AnyError ℕ
  dial_round cid port local_port again n = opened cid port local_port again (socket n)

  -- The loop, with the number of repetitions that are left.
  unfoldable pub dial : ℕ → ℕ → ℕ → ℕ → Run Net AnyError ℕ
  dial zero cid port local_port = dial_round cid port local_port none
  dial (suc left) cid port local_port =
      dial_round cid port local_port (some (dial left cid port local_port))

  unfoldable pub connect_with_local_port : ℕ → ℕ → ℕ → Run Net AnyError ℕ
  connect_with_local_port host_cid port local_port = dial 10 host_cid port local_port

  -- The dialling on a state that has the network in it: `attach` puts the network back, and the new
  -- stream in place, if there is one.
  module _ {State : Type 0} (net : State → Net) (attach : Option ℕ → State → Net → State) where
    unfoldable pub attached : State → Result AnyError ℕ × Net → Result AnyError (Unit {0}) × State
    attached s (ok fd, n) = (ok tt, attach (some fd) s n)
    attached s (err e, n) = (err e, attach none s n)
    attached s (panic, n) = (panic, attach none s n)

    unfoldable pub stream_to : ℕ → ℕ → ℕ → Run State AnyError (Unit {0})
    stream_to host_cid port local_port s =
        attached s (connect_with_local_port host_cid port local_port (net s))
