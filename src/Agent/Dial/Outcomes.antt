-- ===== src/Agent/Dial/Outcomes.antt =====
-- When the agent gets a connection.
use mathlib.Core.Option.{some-injective}
use vm_auth_scope.Base.{ℕ, zero, suc, ◌≤◌, ◌≡◌, ◌↔◌, refl, ap, ◌∙◌, Option, none, some, arith}
use vm_auth_scope.Agent.Dial.{
  Sockets, adopted, connected, refused, bound, opened, dial_round, dial, connect_with_local_port,
}
use vm_auth_scope.Agent.Dial.Rounds.{
  IsConnected, IsBusy, Busy, at_once, then, Round, connects, repeats, opened-Round,
}
use vm_auth_scope.Base.Result.{ok}
use vm_auth_scope.Io.{AnyError, Run}

module _ (N : Sockets) (cid port local_port : ℕ) where
  open N use {Net}

  -- A round that connects, behind at most `left` that found the port in use.
  pub record IsDialled (left fd : ℕ) (n m : Net) : Type 0 where
    pub tries : ℕ
    pub few : tries ≤ left
    pub last : Net
    pub waited : Busy N cid port local_port tries n last
    pub done : IsConnected N cid port local_port fd last m

  Round-IsDialled :
      (left fd : ℕ) (n m : Net) (again : Option (Run Net AnyError ℕ))
      → Round N cid port local_port again fd n m
      → ((next : Run Net AnyError ℕ) (k : Net)
          → again ≡ some next
          → IsBusy N cid port local_port n k
          → next k ≡ (ok fd, m)
          → IsDialled left fd n m)
      → IsDialled left fd n m
  Round-IsDialled left fd n m again (connects c) later = record {
    tries = 0;
    few = omega arith;
    last = n;
    waited = at_once;
    done = c;
  }
  Round-IsDialled left fd n m again (repeats k next more busy rest) later =
      later next k more busy rest

  dial-IsDialled :
      (left fd : ℕ) (n m : Net)
      → dial N left cid port local_port n ≡ (ok fd, m)
      → IsDialled left fd n m
  unfolding dial dial_round
  dial-IsDialled zero fd n m h =
      Round-IsDialled zero fd n m none
        (opened-Round N cid port local_port none fd n (N.socket n) m refl h)
        (λ next k more. absurd (cc more))
  dial-IsDialled (suc left) fd n m h =
      Round-IsDialled (suc left) fd n m (some (dial N left cid port local_port))
        (opened-Round N cid port local_port (some (dial N left cid port local_port)) fd n
          (N.socket n) m refl h)
        (λ next k more busy rest.
          let same = some-injective (dial N left cid port local_port) next more in
          let o = dial-IsDialled left fd k m (ap (λ f. f k) same ∙ rest) in
          record {
            tries = suc o.tries;
            few = omega (arith, o.few);
            last = o.last;
            waited = then busy o.waited;
            done = o.done;
          })

  round_of_IsConnected :
      (again : Option (Run Net AnyError ℕ)) (fd : ℕ) (n m : Net)
      → IsConnected N cid port local_port fd n m
      → dial_round N cid port local_port again n ≡ (ok fd, m)
  unfolding dial_round opened bound connected adopted
  round_of_IsConnected again fd n m c =
      rw c.socket_made (rw c.port_bound (rw c.peer_joined (rw c.stream_made refl)))

  round_of_IsBusy :
      (next : Run Net AnyError ℕ) (n k : Net)
      → IsBusy N cid port local_port n k
      → dial_round N cid port local_port (some next) n ≡ next k
  unfolding dial_round opened bound refused
  round_of_IsBusy next n k b =
      rw b.socket_made (rw b.port_refused (rw (b.in_use, refused) (ap next b.waited)))

  dial_of_Busy :
      (left tries fd : ℕ) (n last m : Net)
      → tries ≤ left
      → Busy N cid port local_port tries n last
      → IsConnected N cid port local_port fd last m
      → dial N left cid port local_port n ≡ (ok fd, m)
  unfolding dial
  dial_of_Busy zero tries fd n last m few at_once c = round_of_IsConnected none fd n m c
  dial_of_Busy zero tries fd n last m few (then b w) c = absurd (omega (arith, few))
  dial_of_Busy (suc left) tries fd n last m few at_once c =
      round_of_IsConnected (some (dial N left cid port local_port)) fd n m c
  dial_of_Busy (suc left) tries fd n last m few (then {k = j} {m = k} b w) c =
      round_of_IsBusy (dial N left cid port local_port) n k b
      ∙ dial_of_Busy left j fd k last m (omega (arith, few)) w c

  -- `connect_with_local_port` gives a stream exactly when one of its first eleven rounds makes a
  -- socket, binds it to the local port, connects it and makes the stream, and every round before
  -- it found the port in use, closed its socket and waited.
  pub connect_with_local_port_iff :
      (fd : ℕ) (n m : Net)
      → (connect_with_local_port N cid port local_port n ≡ (ok fd, m)) ↔ IsDialled 10 fd n m
  unfolding connect_with_local_port
  connect_with_local_port_iff fd n m =
      (dial-IsDialled 10 fd n m, λ o. dial_of_Busy 10 o.tries fd n o.last m o.few o.waited o.done)
