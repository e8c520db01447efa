-- ===== src/Agent/Loop/Secured.antt =====
-- When the agent holds the port, and when it gives up.
use vm_auth_scope.Base.{ℕ, zero, suc, ◌≤◌, ◌≡◌, ◌↔◌, refl, sym, ap, ◌∙◌, arith}
use vm_auth_scope.Agent.Loop.{not_secured, or_again, secure}
use vm_auth_scope.Base.Result.{Result, ok, err, panic, map_err}
use vm_auth_scope.Base.Result.Laws.{err_injective}
use vm_auth_scope.Io.{AnyError, IoError, Run, wrap}
use vm_auth_scope.Io.Laws.{outcome, state_after, wrap-eq-ok, wrap_of_ok}

module _ {State : Type 0} (listen : ℕ → Run State IoError (Unit {0})) (pause : State → State)
    (port : ℕ) where
  -- After the first `k` attempts failed, and the pauses behind them, the state is this.
  pub data Refused : ℕ → State → State → Type 0 where
    none_yet : {s : State} → Refused zero s s
    once_more :
        {k : ℕ} {s t u : State} (e : IoError)
        → listen port s ≡ (err e, t)
        → Refused k (pause t) u
        → Refused (suc k) s u

  -- Some attempt among the first and `left` more succeeds, all before it being refused.
  pub record IsHeld (left : ℕ) (s t : State) : Type 0 where
    pub failures : ℕ
    pub few : failures ≤ left
    pub last : State
    pub refused : Refused failures s last
    pub bound : listen port last ≡ (ok tt, t)

  first_attempt : (left : ℕ) (s t : State) → listen port s ≡ (ok tt, t) → IsHeld left s t
  first_attempt left s t h = record {
    failures = 0;
    few = omega arith;
    last = s;
    refused = none_yet;
    bound = h;
  }

  or_again-IsHeld :
      (left : ℕ) (s t : State) (out : Result IoError (Unit {0}) × State)
      → listen port s ≡ out
      → ((u : State) → secure listen pause left port u ≡ (ok tt, t) → IsHeld left u t)
      → or_again listen pause (secure listen pause left port) out ≡ (ok tt, t)
      → IsHeld (suc left) s t
  unfolding or_again
  or_again-IsHeld left s t (ok _, u) e later h =
      first_attempt (suc left) s t (e ∙ ap (λ x. (ok tt, x)) (state_after h))
  or_again-IsHeld left s t (err x, u) e later h =
      let o = later (pause u) h in
      record {
        failures = suc o.failures;
        few = omega (arith, o.few);
        last = o.last;
        refused = once_more x e o.refused;
        bound = o.bound;
      }
  or_again-IsHeld left s t (panic, u) e later h = absurd (cc (outcome h))

  secure-IsHeld :
      (left : ℕ) (s t : State) → secure listen pause left port s ≡ (ok tt, t) → IsHeld left s t
  unfolding secure
  secure-IsHeld zero s t h = first_attempt zero s t (wrap-eq-ok _ _ s h)
  secure-IsHeld (suc left) s t h =
      or_again-IsHeld left s t (listen port s) refl (λ u. secure-IsHeld left u t) h

  secure_of_Refused :
      (left k : ℕ) (s t u : State)
      → k ≤ left
      → Refused k s u
      → listen port u ≡ (ok tt, t)
      → secure listen pause left port s ≡ (ok tt, t)
  unfolding secure or_again
  secure_of_Refused zero k s t u few none_yet h = wrap_of_ok _ _ s h
  secure_of_Refused zero k s t u few (once_more e x r) h = absurd (omega (arith, few))
  secure_of_Refused (suc left) k s t u few none_yet h = rw h
  secure_of_Refused (suc left) k s t u few (once_more {k = j} e x r) h =
      rw x (secure_of_Refused left j _ t u (omega (arith, few)) r h)

  -- The agent holds its port exactly when one of its attempts to bind it succeeds, all before it
  -- being refused: the first, or one of the `left` repetitions, each behind a pause.
  pub secure_iff :
      (left : ℕ) (s t : State) → (secure listen pause left port s ≡ (ok tt, t)) ↔ IsHeld left s t
  secure_iff left s t = (
    secure-IsHeld left s t,
    λ o. secure_of_Refused left o.failures s t o.last o.few o.refused o.bound,
  )

  -- The first `left` attempts and the one behind them were all refused.
  pub record IsGivenUp (left : ℕ) (x : AnyError) (s t : State) : Type 0 where
    pub last : State
    pub refusal : IoError
    pub refused : Refused left s last
    pub last_refused : listen port last ≡ (err refusal, t)
    pub same_error : x ≡ not_secured port refusal

  only_attempt :
      (x : AnyError) (s t : State) (out : Result IoError (Unit {0}) × State)
      → listen port s ≡ out
      → ◌≡◌ {A = Result AnyError (Unit {0}) × State}
          (map_err (not_secured port) out.0, out.1)
          (err x, t)
      → IsGivenUp zero x s t
  unfolding map_err
  only_attempt x s t (ok _, u) e h = absurd (cc (outcome h))
  only_attempt x s t (panic, u) e h = absurd (cc (outcome h))
  only_attempt x s t (err y, u) e h = record {
    last = s;
    refusal = y;
    refused = none_yet;
    last_refused = e ∙ ap (λ (r : Result AnyError (Unit {0}) × State). (err y, r.1)) h;
    same_error = sym (err_injective (outcome h));
  }

  or_again-IsGivenUp :
      (left : ℕ) (x : AnyError) (s t : State) (out : Result IoError (Unit {0}) × State)
      → listen port s ≡ out
      → ((u : State) → secure listen pause left port u ≡ (err x, t) → IsGivenUp left x u t)
      → or_again listen pause (secure listen pause left port) out ≡ (err x, t)
      → IsGivenUp (suc left) x s t
  unfolding or_again
  or_again-IsGivenUp left x s t (ok _, u) e later h = absurd (cc (outcome h))
  or_again-IsGivenUp left x s t (panic, u) e later h = absurd (cc (outcome h))
  or_again-IsGivenUp left x s t (err y, u) e later h =
      let g = later (pause u) h in
      record {
        last = g.last;
        refusal = g.refusal;
        refused = once_more y e g.refused;
        last_refused = g.last_refused;
        same_error = g.same_error;
      }

  secure-IsGivenUp :
      (left : ℕ) (x : AnyError) (s t : State)
      → secure listen pause left port s ≡ (err x, t)
      → IsGivenUp left x s t
  unfolding secure wrap
  secure-IsGivenUp zero x s t h = only_attempt x s t (listen port s) refl h
  secure-IsGivenUp (suc left) x s t h =
      or_again-IsGivenUp left x s t (listen port s) refl (λ u. secure-IsGivenUp left x u t) h

  secure_gives_up :
      (left : ℕ) (s u t : State) (y : IoError)
      → Refused left s u
      → listen port u ≡ (err y, t)
      → secure listen pause left port s ≡ (err (not_secured port y), t)
  unfolding secure or_again wrap map_err
  secure_gives_up zero s u t y none_yet h = rw h
  secure_gives_up (suc left) s u t y (once_more e x r) h = rw x (secure_gives_up left _ u t y r h)

  -- The agent gives up its port exactly when the `left` attempts that it may repeat and the one
  -- behind them were all refused: with the last refusal, under a context that names the port.
  pub secure_err_iff :
      (left : ℕ) (x : AnyError) (s t : State)
      → (secure listen pause left port s ≡ (err x, t)) ↔ IsGivenUp left x s t
  secure_err_iff left x s t = (
    secure-IsGivenUp left x s t,
    λ g.
        secure_gives_up left s g.last t g.refusal g.refused g.last_refused
        ∙ ap (λ y. (err y, t)) (sym g.same_error),
  )
