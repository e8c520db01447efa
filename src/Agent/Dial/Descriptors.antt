-- ===== src/Agent/Dial/Descriptors.antt =====
-- No descriptor is left open.
use vm_auth_scope.Base.{
  ℕ, zero, suc, ◌≡◌, refl, ap, ◌∙◌, Bool, true, false, Option, none, some, List, ◌∷◌,
}
use vm_auth_scope.Agent.Dial.{
  Sockets, is_addr_in_use, adopted, connected, refused, bound, opened, dial_round, dial,
  connect_with_local_port,
}
use vm_auth_scope.Base.Result.{Result, ok, err, panic}
use vm_auth_scope.Io.{AnyError, IoError, Run}

-- What the calls do to the descriptors of the program that are open, the latest first.
pub record IsSockets (N : Sockets) : Type 0 where
  pub open_fds : N.Net → List ℕ
  pub socket-some :
      (n m : N.Net) (fd : ℕ) → N.socket n ≡ (some fd, m) → open_fds m ≡ fd ∷ open_fds n
  pub socket-none : (n m : N.Net) → N.socket n ≡ (none, m) → open_fds m ≡ open_fds n
  pub setsockopt-kept : (fd : ℕ) (n : N.Net) → open_fds (N.setsockopt fd n) ≡ open_fds n
  pub bind-kept : (fd port : ℕ) (n : N.Net) → open_fds (N.bind fd port n).1 ≡ open_fds n
  pub connect-kept :
      (fd cid port : ℕ) (n : N.Net) → open_fds (N.connect fd cid port n).1 ≡ open_fds n
  pub adopt-ok : (fd : ℕ) (n m : N.Net) → N.adopt fd n ≡ (ok tt, m) → open_fds m ≡ open_fds n
  pub adopt-err :
      (fd : ℕ) (n m : N.Net) (e : IoError) (l : List ℕ)
      → N.adopt fd n ≡ (err e, m)
      → open_fds n ≡ fd ∷ l
      → open_fds m ≡ l
  pub adopt-panic :
      (fd : ℕ) (n m : N.Net) (l : List ℕ)
      → N.adopt fd n ≡ (panic, m)
      → open_fds n ≡ fd ∷ l
      → open_fds m ≡ l
  pub close-open :
      (fd : ℕ) (n : N.Net) (l : List ℕ) → open_fds n ≡ fd ∷ l → open_fds (N.close fd n) ≡ l
  pub sleep-kept : (n : N.Net) → open_fds (N.sleep n) ≡ open_fds n

-- The descriptor that a call hands over.
abbrev pub handed : Result AnyError ℕ → List ℕ → List ℕ
handed (ok fd) l = fd ∷ l
handed _ l = l

module _ (N : Sockets) (L : IsSockets N) where
  open N use {Net}
  open L use {open_fds}

  -- The open descriptors are those before, and the one that is handed over.
  abbrev IsBalanced : List ℕ → Result AnyError ℕ × Net → Type 0
  IsBalanced l out = open_fds out.1 ≡ handed out.0 l

  adopted-IsBalanced :
      (fd : ℕ) (l : List ℕ) (n : Net) (out : Result IoError (Unit {0}) × Net)
      → open_fds n ≡ fd ∷ l
      → N.adopt fd n ≡ out
      → IsBalanced l (adopted N fd out)
  unfolding adopted
  adopted-IsBalanced fd l n (ok _, m) h e = L.adopt-ok fd n m e ∙ h
  adopted-IsBalanced fd l n (err x, m) h e = L.adopt-err fd n m x l e h
  adopted-IsBalanced fd l n (panic, m) h e = L.adopt-panic fd n m l e h

  connected-IsBalanced :
      (fd : ℕ) (l : List ℕ) (out : Bool × Net)
      → open_fds out.1 ≡ fd ∷ l
      → IsBalanced l (connected N fd out)
  unfolding connected
  connected-IsBalanced fd l (true, n) h = adopted-IsBalanced fd l n (N.adopt fd n) h refl
  connected-IsBalanced fd l (false, n) h = L.close-open fd n l h

  -- What the next round does, from any state.
  abbrev AllBalanced : Option (Run Net AnyError ℕ) → Type 0
  AllBalanced none = Unit
  AllBalanced (some again) = (n : Net) → IsBalanced (open_fds n) (again n)

  refused-IsBalanced :
      (port : ℕ) (again : Option (Run Net AnyError ℕ)) (e : IoError) (l : List ℕ) (n : Net)
      → AllBalanced again
      → open_fds n ≡ l
      → IsBalanced l (refused N port again e n)
  unfolding refused
  refused-IsBalanced port none e l n hs h = h
  refused-IsBalanced port (some again) e l n hs h = decided (is_addr_in_use e) refl
    where
      decided : (b : Bool) → is_addr_in_use e ≡ b → IsBalanced l (refused N port (some again) e n)
      decided true b =
          rw (b, refused) (hs (N.sleep n) ∙ ap (handed (again (N.sleep n)).0) (L.sleep-kept n ∙ h))
      decided false b = rw (b, refused) h

  bound-IsBalanced :
      (cid port local_port : ℕ) (again : Option (Run Net AnyError ℕ)) (fd : ℕ) (l : List ℕ)
      (out : Bool × Net)
      → AllBalanced again
      → open_fds out.1 ≡ fd ∷ l
      → IsBalanced l (bound N cid port local_port again fd out)
  unfolding bound
  bound-IsBalanced cid port local_port again fd l (true, n) hs h =
      connected-IsBalanced fd l (N.connect fd cid port n) (L.connect-kept fd cid port n ∙ h)
  bound-IsBalanced cid port local_port again fd l (false, n) hs h =
      refused-IsBalanced local_port again (N.last_os_error n) l (N.close fd n) hs
        (L.close-open fd n l h)

  opened-IsBalanced :
      (cid port local_port : ℕ) (again : Option (Run Net AnyError ℕ)) (n : Net)
      (out : Option ℕ × Net)
      → AllBalanced again
      → N.socket n ≡ out
      → IsBalanced (open_fds n) (opened N cid port local_port again out)
  unfolding opened
  opened-IsBalanced cid port local_port again n (none, m) hs e = L.socket-none n m e
  opened-IsBalanced cid port local_port again n (some fd, m) hs e =
      bound-IsBalanced cid port local_port again fd (open_fds n)
        (N.bind fd local_port (N.setsockopt fd m)) hs
        (L.bind-kept fd local_port (N.setsockopt fd m)
          ∙ L.setsockopt-kept fd m
          ∙ L.socket-some n m fd e)

  dial-IsBalanced :
      (left cid port local_port : ℕ) (n : Net)
      → IsBalanced (open_fds n) (dial N left cid port local_port n)
  unfolding dial dial_round
  dial-IsBalanced zero cid port local_port n =
      opened-IsBalanced cid port local_port none n (N.socket n) tt refl
  dial-IsBalanced (suc left) cid port local_port n =
      opened-IsBalanced cid port local_port (some (dial N left cid port local_port)) n (N.socket n)
        (dial-IsBalanced left cid port local_port) refl

  -- On every path through `connect_with_local_port`, the descriptors that are open at its end are
  -- those that were open before, and, if it succeeded, that of the connection: each of the up to
  -- eleven sockets that it made on the way is closed.
  pub connect_with_local_port-IsBalanced :
      (host_cid port local_port : ℕ) (n : Net)
      → open_fds (connect_with_local_port N host_cid port local_port n).1
        ≡ handed (connect_with_local_port N host_cid port local_port n).0 (open_fds n)
  unfolding connect_with_local_port
  connect_with_local_port-IsBalanced = dial-IsBalanced 10
