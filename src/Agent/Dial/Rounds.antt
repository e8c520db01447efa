-- ===== src/Agent/Dial/Rounds.antt =====
-- The rounds of the dialling, by what they come to.
use mathlib.Core.Path.{subst}
use vm_auth_scope.Base.{
  ℕ, zero, suc, ◌≡◌, refl, ap, Bool, true, false, Bool-cases, inl, inr, Option, none, some,
}
use vm_auth_scope.Agent.Dial.{Sockets, is_addr_in_use, adopted, connected, refused, bound, opened}
use vm_auth_scope.Base.Result.{Result, ok, err, panic}
use vm_auth_scope.Base.Result.Laws.{ok_injective}
use vm_auth_scope.Io.{AnyError, IoError, Run}
use vm_auth_scope.Io.Laws.{outcome}

module _ (N : Sockets) (cid port local_port : ℕ) where
  open N use {Net}

  -- A round that binds, connects and gives the stream.
  pub record IsConnected (fd : ℕ) (n m : Net) : Type 0 where
    pub made : Net
    pub named : Net
    pub joined : Net
    pub socket_made : N.socket n ≡ (some fd, made)
    pub port_bound : N.bind fd local_port (N.setsockopt fd made) ≡ (true, named)
    pub peer_joined : N.connect fd cid port named ≡ (true, joined)
    pub stream_made : N.adopt fd joined ≡ (ok tt, m)

  -- A round that finds the port in use, and waits.
  pub record IsBusy (n m : Net) : Type 0 where
    pub fd : ℕ
    pub made : Net
    pub left : Net
    pub socket_made : N.socket n ≡ (some fd, made)
    pub port_refused : N.bind fd local_port (N.setsockopt fd made) ≡ (false, left)
    pub in_use : is_addr_in_use (N.last_os_error left) ≡ true
    pub waited : N.sleep (N.close fd left) ≡ m

  pub data Busy : ℕ → Net → Net → Type 0 where
    at_once : {n : Net} → Busy zero n n
    then : {k : ℕ} {n m o : Net} → IsBusy n m → Busy k m o → Busy (suc k) n o

  -- A round, by what it comes to.
  pub data Round (again : Option (Run Net AnyError ℕ)) (fd : ℕ) (n m : Net) : Type 0 where
    connects : IsConnected fd n m → Round again fd n m
    repeats :
        (k : Net) (next : Run Net AnyError ℕ)
        → again ≡ some next
        → IsBusy n k
        → next k ≡ (ok fd, m)
        → Round again fd n m

  adopted-eq-ok :
      (fd fd' : ℕ) (out : Result IoError (Unit {0}) × Net) (m : Net)
      → adopted N fd out ≡ (ok fd', m)
      → (fd ≡ fd') × (out ≡ (ok tt, m))
  unfolding adopted
  adopted-eq-ok fd fd' (ok _, u) m h =
      (ok_injective (outcome h), ap (λ (r : Result AnyError ℕ × Net). (ok tt, r.1)) h)
  adopted-eq-ok fd fd' (err e, u) m h = absurd (cc (outcome h))
  adopted-eq-ok fd fd' (panic, u) m h = absurd (cc (outcome h))

  connected-eq-ok :
      (fd fd' : ℕ) (out : Bool × Net) (m : Net)
      → connected N fd out ≡ (ok fd', m)
      → (fd ≡ fd') × (u : Net) × (out ≡ (true, u)) × (N.adopt fd u ≡ (ok tt, m))
  unfolding connected
  connected-eq-ok fd fd' (true, u) m h =
      let (same, done) = adopted-eq-ok fd fd' (N.adopt fd u) m h in (same, u, refl, done)
  connected-eq-ok fd fd' (false, u) m h = absurd (cc (outcome h))

  refused-eq-ok :
      (again : Option (Run Net AnyError ℕ)) (e : IoError) (n : Net) (fd : ℕ) (m : Net)
      → refused N local_port again e n ≡ (ok fd, m)
      → (next : Run Net AnyError ℕ) × (again ≡ some next)
        × (is_addr_in_use e ≡ true)
        × (next (N.sleep n) ≡ (ok fd, m))
  unfolding refused
  refused-eq-ok none e n fd m h = absurd (cc (outcome h))
  refused-eq-ok (some next) e n fd m h = elim (Bool-cases (is_addr_in_use e)) [
    | inl busy ↦ (next, refl, busy, rw (busy, refused) at h)
    | inr free ↦ absurd (cc (outcome (rw (free, refused) at h)))
  ]

  bound-Round :
      (again : Option (Run Net AnyError ℕ)) (fd fd' : ℕ) (n made : Net) (out : Bool × Net) (m : Net)
      → N.socket n ≡ (some fd, made)
      → N.bind fd local_port (N.setsockopt fd made) ≡ out
      → bound N cid port local_port again fd out ≡ (ok fd', m)
      → Round again fd' n m
  unfolding bound
  bound-Round again fd fd' n made (true, u) m s b h =
      let (same, v, c, a) = connected-eq-ok fd fd' (N.connect fd cid port u) m h in
      connects (
        subst (λ x. IsConnected x n m) same
          (record {
            made = made;
            named = u;
            joined = v;
            socket_made = s;
            port_bound = b;
            peer_joined = c;
            stream_made = a;
          }))
  bound-Round again fd fd' n made (false, u) m s b h =
      let (next, more, busy, rest) =
        refused-eq-ok again (N.last_os_error u) (N.close fd u) fd' m h in
      repeats (N.sleep (N.close fd u)) next more
        (record {
          fd = fd;
          made = made;
          left = u;
          socket_made = s;
          port_refused = b;
          in_use = busy;
          waited = refl;
        })
        rest

  pub opened-Round :
      (again : Option (Run Net AnyError ℕ)) (fd : ℕ) (n : Net) (out : Option ℕ × Net) (m : Net)
      → N.socket n ≡ out
      → opened N cid port local_port again out ≡ (ok fd, m)
      → Round again fd n m
  unfolding opened
  opened-Round again fd n (none, u) m s h = absurd (cc (outcome h))
  opened-Round again fd n (some f, u) m s h =
      bound-Round again f fd n u (N.bind f local_port (N.setsockopt f u)) m s refl h
