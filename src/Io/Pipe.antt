-- ===== src/Io/Pipe.antt =====
-- A connected pipe in memory: a stream that meets the assumptions of `Io/Stream.antt`.
use vm_auth_scope.Base.{
  ℕ, ◌≤◌, ◌≡◌, refl, sym, ap, [], ◌++◌, Bytes, length, length-take, take, drop, take-append-drop,
  leb, if◌then◌else◌, arith, Bool-cases, inl, inr,
}
use vm_auth_scope.Base.Result.{Result, ok, err}
use mathlib.Core.List.{append-nil}
use vm_auth_scope.Io.{Run, IoError, unexpected_eof}
use vm_auth_scope.Io.Stream.{Stream, IsStream, IsLive}

-- A pipe: the bytes that will arrive, and those that were written.
pub record Pipe : Type 0 where
  pub incoming : Bytes
  pub outgoing : Bytes

abbrev pub eof : IoError
eof = record { kind = unexpected_eof; shown = [] }

unfoldable pub pipe_read : ℕ → Run Pipe IoError Bytes
pipe_read n p =
    if leb n (length p.incoming)
    then (ok (take n p.incoming), record p { incoming = drop n p.incoming })
    else (err eof, record p { incoming = [] })

abbrev pub pipe : Stream
pipe = record {
  State = Pipe;
  read_exact = pipe_read;
  write_all = λ b p. (ok tt, record p { outgoing = p.outgoing ++ b });
  flush = λ p. (ok tt, p);
}

pub pipe_read_enough :
    (n : ℕ) (p : Pipe)
    → n ≤ length p.incoming
    → pipe_read n p ≡ (ok (take n p.incoming), record p { incoming = drop n p.incoming })
unfolding pipe_read
pipe_read_enough n p h = ground arith

pub pipe_read-ok :
    (n : ℕ) (s : Pipe) (b : Bytes) (t : Pipe)
    → pipe_read n s ≡ (ok b, t)
    → (length b ≡ n) × (s.incoming ≡ b ++ t.incoming)
unfolding pipe_read
pipe_read-ok n s b t e = elim (Bool-cases (leb n (length s.incoming))) [
  | inl h ↦ ground (arith, length-take n s.incoming, take-append-drop n s.incoming)
  | inr h ↦ ground arith
]

pub pipe_read-incoming :
    (n : ℕ) (s : Pipe)
    → (taken : Bytes) × (s.incoming ≡ taken ++ (pipe_read n s).1.incoming) × (length taken ≤ n)
unfolding pipe_read
pipe_read-incoming n s = elim (Bool-cases (leb n (length s.incoming))) [
  | inl h ↦ (
    take n s.incoming,
    rw (h, take-append-drop),
    omega (arith, length-take n s.incoming (ground arith)),
  )
  | inr h ↦ (s.incoming, rw (h, append-nil), ground arith)
]

pub pipe_read-outgoing : (n : ℕ) (s : Pipe) → (pipe_read n s).1.outgoing ≡ s.outgoing
unfolding pipe_read
pipe_read-outgoing n s = ground arith

abbrev pub pipe-IsStream : IsStream pipe
pipe-IsStream = record {
  unread = λ p. p.incoming;
  sent = λ p. p.outgoing;
  read_exact-ok = pipe_read-ok;
  read_exact-unread = pipe_read-incoming;
  read_exact-sent = pipe_read-outgoing;
  write_all-ok = λ b s t e. sym (ap (λ (r : Result IoError (Unit {0}) × Pipe). r.1.outgoing) e);
  write_all-sent = λ b s. (b, [], sym (append-nil b), refl);
  write_all-unread = λ b s. refl;
  flush-sent = λ s. refl;
  flush-unread = λ s. refl;
}

abbrev pub pipe-IsLive : IsLive pipe pipe-IsStream
pipe-IsLive = record {
  Up = λ _. Unit;
  read_live = λ n s _ h.
      (take n s.incoming, record s { incoming = drop n s.incoming }, pipe_read_enough n s h, tt);
  write_live = λ b s _. (record s { outgoing = s.outgoing ++ b }, refl, tt);
  flush_live = λ s _. (s, refl, tt);
}
