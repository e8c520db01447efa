-- ===== src/Io/Laws.antt =====
-- Laws of `Run`: inversion of a success, and the views of the state that every outcome keeps.
use vm_auth_scope.Base.{
  ℕ, ◌↔◌, Bool-cases, inl, inr, ◌==◌, nat_eq, nat_beq, nat_beq_iff, ◌≡◌, refl, sym, ap, ◌∙◌, Bool,
  true, false, if◌then◌else◌, arith,
}
use vm_auth_scope.Base.Result.{Result, ok, err, panic, map_err}
use vm_auth_scope.Io.{Run, follow, ◌>>=◌, lift, wrap}

-- The parts of equal results of a call.
module _ {S E A : Type 0} {p q : Result E A × S} where
  pub outcome : p ≡ q → p.0 ≡ q.0
  outcome h = ap (λ (r : Result E A × S). r.0) h

  pub state_after : p ≡ q → p.1 ≡ q.1
  state_after h = ap (λ (r : Result E A × S). r.1) h

module _ {S E A B : Type 0} where
  follow-eq-ok :
      (r : Result E A × S) (f : A → Run S E B) {b : B} {t : S}
      → follow f r ≡ (ok b, t)
      → (a : A) × (u : S) × (r ≡ (ok a, u)) × (f a u ≡ (ok b, t))
  unfolding follow
  follow-eq-ok (ok a, u) f h = (a, u, refl, h)
  follow-eq-ok (err e, u) f h = absurd (cc (outcome h))
  follow-eq-ok (panic, u) f h = absurd (cc (outcome h))

  pub >>=-eq-ok :
      (m : Run S E A) (f : A → Run S E B) (s : S) {b : B} {t : S}
      → (m >>= f) s ≡ (ok b, t)
      → (a : A) × (u : S) × (m s ≡ (ok a, u)) × (f a u ≡ (ok b, t))
  unfolding ◌>>=◌
  >>=-eq-ok m f s h = follow-eq-ok (m s) f h

  -- The first call succeeds, and the rest runs from where it left the state.
  pub >>=_of_ok :
      (m : Run S E A) (f : A → Run S E B) (s : S) {a : A} {u : S}
      → m s ≡ (ok a, u)
      → (m >>= f) s ≡ f a u
  unfolding ◌>>=◌
  >>=_of_ok m f s h = rw h

  pub >>=_of_err :
      (m : Run S E A) (f : A → Run S E B) (s : S) {e : E} {u : S}
      → m s ≡ (err e, u)
      → (m >>= f) s ≡ (err e, u)
  unfolding ◌>>=◌
  >>=_of_err m f s h = rw h

-- A view of the state that a call leaves as it was, on every outcome.
pub record Keeps {S E A V : Type 0} (view : S → V) (m : Run S E A) : Type 0 where
  pub keeps : (s : S) → view (m s).1 ≡ view s

pub Keeps-eq :
    {S E A V : Type 0} {view : S → V} {m : Run S E A} {s t : S} {r : Result E A}
    → Keeps view m
    → m s ≡ (r, t)
    → view t ≡ view s
Keeps-eq {S} {E} {A} {view = view} {s = s} h e =
    sym (ap (λ (p : Result E A × S). view p.1) e) ∙ h.keeps s

module _ {S V : Type 0} (view : S → V) {E A B : Type 0} where
  pub follow-Keeps :
      (r : Result E A × S) (f : A → Run S E B)
      → ((a : A) → Keeps view (f a))
      → view (follow f r).1 ≡ view r.1
  unfolding follow
  follow-Keeps (ok a, u) f h = (h a).keeps u
  follow-Keeps (err e, u) f h = refl
  follow-Keeps (panic, u) f h = refl

  pub >>=-Keeps :
      (m : Run S E A) (f : A → Run S E B)
      → Keeps view m
      → ((a : A) → Keeps view (f a))
      → Keeps view (m >>= f)
  unfolding ◌>>=◌
  >>=-Keeps m f hm hf = record { keeps = λ s. follow-Keeps (m s) f hf ∙ hm.keeps s }

module _ {S V : Type 0} (view : S → V) {E A : Type 0} where
  pub wrap-Keeps : {F : Type 0} (g : E → F) (m : Run S E A) → Keeps view m → Keeps view (wrap g m)
  unfolding wrap
  wrap-Keeps g m h = record { keeps = h.keeps }

  pub lift-Keeps : (r : Result E A) → Keeps view (lift r)
  unfolding lift
  lift-Keeps r = record { keeps = λ s. refl }

  pub if-Keeps :
      (b : Bool) (m n : Run S E A) → Keeps view m → Keeps view n → Keeps view (if b then m else n)
  if-Keeps true m n hm hn = hm
  if-Keeps false m n hm hn = hn

pub ruleset keeping = (>>=-Keeps, wrap-Keeps, lift-Keeps, if-Keeps)

module _ {S E F A : Type 0} (f : E → F) where
  wrapped-eq-ok :
      (r : Result E A × S) {a : A} {t : S}
      → ◌≡◌ {A = Result F A × S} (map_err f r.0, r.1) (ok a, t)
      → r ≡ (ok a, t)
  unfolding map_err
  wrapped-eq-ok (ok b, u) h = ground arith
  wrapped-eq-ok (err e, u) h = absurd (cc (outcome h))
  wrapped-eq-ok (panic, u) h = absurd (cc (outcome h))

  pub wrap-eq-ok :
      (m : Run S E A) (s : S) {a : A} {t : S} → wrap f m s ≡ (ok a, t) → m s ≡ (ok a, t)
  unfolding wrap
  wrap-eq-ok m s h = wrapped-eq-ok (m s) h

  pub wrap_of_ok :
      (m : Run S E A) (s : S) {a : A} {t : S} → m s ≡ (ok a, t) → wrap f m s ≡ (ok a, t)
  unfolding wrap map_err
  wrap_of_ok m s h = rw h

module _ {S E A : Type 0} where
  pub lift-eq-ok :
      (r : Result E A) (s : S) {a : A} {t : S} → lift r s ≡ (ok a, t) → (r ≡ ok a) × (s ≡ t)
  unfolding lift
  lift-eq-ok r s h = (outcome h, state_after h)

-- What follows a call that leaves the state alone runs where it stood.
pub >>=-lift-eq-ok :
    {S E A B : Type 0} (r : Result E A) (f : A → Run S E B) (s : S) {b : B} {t : S}
    → (lift r >>= f) s ≡ (ok b, t)
    → (a : A) × (r ≡ ok a) × (f a s ≡ (ok b, t))
unfolding lift ◌>>=◌ follow
>>=-lift-eq-ok (ok a) f s h = (a, refl, h)
>>=-lift-eq-ok {E = E} {B = B} (err e) f s h = absurd (cc (outcome h))
>>=-lift-eq-ok {E = E} {B = B} panic f s h = absurd (cc (outcome h))

pub >>=-lift-Keeps :
    {S V : Type 0} (view : S → V) {E A B : Type 0} (r : Result E A) (f : A → Run S E B)
    → ((a : A) → r ≡ ok a → Keeps view (f a))
    → Keeps view (lift r >>= f)
unfolding lift ◌>>=◌ follow
>>=-lift-Keeps view (ok a) f h = record { keeps = (h a refl).keeps }
>>=-lift-Keeps view (err e) f h = record { keeps = λ s. refl }
>>=-lift-Keeps view panic f h = record { keeps = λ s. refl }

-- A check for root.
pub root_iff :
    (uid : ℕ)
    → ◌≡◌ {A = Result ℕ (Unit {0})} (if uid == 0 then ok tt else err 1) (ok tt) ↔ (uid ≡ 0)
root_iff uid = elim (Bool-cases (nat_beq uid 0)) [
  | inl root ↦ (λ _. (nat_beq_iff uid 0).0 root, λ _. rw root refl)
  | inr other ↦
      (λ h. absurd (cc (rw other at h)), λ e. absurd (cc (other, (nat_beq_iff uid 0).1 e)))
]
