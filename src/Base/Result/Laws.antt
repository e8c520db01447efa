-- ===== src/Base/Result/Laws.antt =====
-- Inversion of a success.
use vm_auth_scope.Base.Result.{Result, ok, err, panic, ◌>>=◌, map_err, expect}
use mathlib.Core.Bool.{Bool, true, false}
use vm_auth_scope.Base.Tests.{if◌then◌else◌}
use mathlib.Core.Option.{Option, none, some}
use mathlib.Core.Path.{◌≡◌, refl}
use native.Mathlib.Omega.{arith}

pub >>=-eq-ok {ℓ κ μ} :
    {E : Type ℓ} {A : Type κ} {B : Type μ} (m : Result E A) (f : A → Result E B) {b : B}
    → (m >>= f) ≡ ok b
    → (a : A) × (m ≡ ok a) × (f a ≡ ok b)
unfolding ◌>>=◌
>>=-eq-ok (ok a) f h = (a, refl, h)
>>=-eq-ok (err e) f h = absurd (cc h)
>>=-eq-ok panic f h = absurd (cc h)

pub map_err-eq-ok {ℓ κ μ} :
    {E : Type ℓ} {F : Type κ} {A : Type μ} (f : E → F) (r : Result E A) {a : A}
    → map_err f r ≡ ok a
    → r ≡ ok a
unfolding map_err
map_err-eq-ok f (ok b) h = ground arith
map_err-eq-ok f (err e) h = absurd (cc h)
map_err-eq-ok f panic h = absurd (cc h)

-- The chain goes on behind a call that succeeds.
pub >>=_of_ok {ℓ κ μ} :
    {E : Type ℓ} {A : Type κ} {B : Type μ} (m : Result E A) (f : A → Result E B) {a : A}
    → m ≡ ok a
    → (m >>= f) ≡ f a
unfolding ◌>>=◌
>>=_of_ok m f h = rw h

pub map_err_of_ok {ℓ κ μ} :
    {E : Type ℓ} {F : Type κ} {A : Type μ} (f : E → F) (r : Result E A) {a : A}
    → r ≡ ok a
    → map_err f r ≡ ok a
unfolding map_err
map_err_of_ok f r h = rw h

pub expect-eq-ok {ℓ κ} :
    {E : Type ℓ} {A : Type κ} (o : Option A) {a : A} → expect {E = E} o ≡ ok a → o ≡ some a
unfolding expect
expect-eq-ok none h = absurd (cc h)
expect-eq-ok (some b) h = ground arith

pub expect_of_some {ℓ κ} :
    {E : Type ℓ} {A : Type κ} (o : Option A) {a : A} → o ≡ some a → expect {E = E} o ≡ ok a
unfolding expect
expect_of_some o h = rw h

pub ok_injective {ℓ κ} :
    {E : Type ℓ} {A : Type κ} {a b : A} → ◌≡◌ {A = Result E A} (ok a) (ok b) → a ≡ b
ok_injective h = ground arith

pub err_injective {ℓ κ} :
    {E : Type ℓ} {A : Type κ} {a b : E} → ◌≡◌ {A = Result E A} (err a) (err b) → a ≡ b
err_injective h = ground arith

-- A check that returns an error passed.
pub test-eq-ok {ℓ} :
    {E : Type ℓ} (b : Bool) (e : E) {u : Unit {0}}
    → ◌≡◌ {A = Result E (Unit {0})} (if b then ok tt else err e) (ok u)
    → b ≡ true
test-eq-ok true e h = refl
test-eq-ok false e h = absurd (cc h)
