-- ===== src/Go/Evaluator/Calm.antt =====
-- The evaluator in Go does not panic.
use vm_auth_scope.Base.{
  ◌≡◌, ◌≢◌, refl, Bool, true, false, inl, inr, Option, none, some, List, [], ◌∷◌, Bytes, Text,
  length, ltb, nat_beq_iff, if◌then◌else◌, arith,
}
use vm_auth_scope.Base.Result.{Result, ok, err, panic, ◌>>=◌, ok_or}
use vm_auth_scope.Base.Result.Laws.{test-eq-ok}
use vm_auth_scope.Go.Evaluator.{slice_to, slice_from, ecdsa_key, parse_parts, new_evaluator}
use vm_auth_scope.Go.Library.{Returned, checked, AnyKey, ecdsa, other, Library}

module _ {E A B : Type 0} where
  >>=-calm :
      (m : Result E A) (f : A → Result E B)
      → m ≢ panic
      → ((a : A) → m ≡ ok a → f a ≢ panic)
      → (m >>= f) ≢ panic
  unfolding ◌>>=◌
  >>=-calm (ok a) f hm hf = hf a refl
  >>=-calm (err e) f hm hf = λ h. cc h
  >>=-calm panic f hm hf = absurd (hm refl)

module _ {A : Type 0} where
  ok_or-calm : (o : Option A) (e : Text) → ok_or o e ≢ panic
  ok_or-calm none e = λ h. cc h
  ok_or-calm (some a) e = λ h. cc h

  checked-calm : (f : Text → Text) (r : Returned A) → checked f r ≢ panic
  checked-calm f (inl e) = λ h. cc h
  checked-calm f (inr a) = λ h. cc h

test-calm :
    (b : Bool) (e : Text) → ◌≢◌ {A = Result Text (Unit {0})} (if b then ok tt else err e) panic
test-calm true e = λ h. cc h
test-calm false e = λ h. cc h

ecdsa_key-calm : {Key : Type 0} (k : AnyKey Key) → ecdsa_key k ≢ panic
unfolding ecdsa_key
ecdsa_key-calm (ecdsa k) = λ h. cc h
ecdsa_key-calm other = λ h. cc h

-- A slice of 64 bytes at the thirty-second is in range.
slice_to-calm : (s : Bytes) → length s ≡ 64 → slice_to s 32 ≢ panic
unfolding slice_to
slice_to-calm s n h = let low : ltb (length s) 32 ≡ false = ground (arith, n) in cc (rw low at h)

slice_from-calm : (s : Bytes) → length s ≡ 64 → slice_from s 32 ≢ panic
unfolding slice_from
slice_from-calm s n h = let low : ltb (length s) 32 ≡ false = ground (arith, n) in cc (rw low at h)

module _ (G : Library) where
  parse_parts-calm : (key : G.PublicKey) (l : List Text) → parse_parts G key l ≢ panic
  unfolding parse_parts
  parse_parts-calm key [] = λ h. cc h
  parse_parts-calm key (a ∷ []) = λ h. cc h
  parse_parts-calm key (a ∷ b ∷ []) = λ h. cc h
  parse_parts-calm key (a ∷ b ∷ c ∷ d ∷ l) = λ h. cc h
  parse_parts-calm key (a ∷ b ∷ c ∷ []) = >>=-calm _ _ (checked-calm _ _) (λ sig e₁.
      >>=-calm _ _ (test-calm _ _) (λ _ e₂.
        let n : length sig ≡ 64 = (nat_beq_iff (length sig) 64).0 (test-eq-ok _ _ e₂) in
        >>=-calm _ _ (slice_to-calm sig n) (λ r e₃. >>=-calm _ _ (slice_from-calm sig n) (λ s e₄.
          >>=-calm _ _ (test-calm _ _) (λ _ e₅.
            >>=-calm _ _ (checked-calm _ _)
              (λ bytes e₆. >>=-calm _ _ (checked-calm _ _) (λ claim e₇ h. cc h)))))))

  -- `NewEvaluator` ends with an evaluator or with an error on any two texts, and never panics: a
  -- signature is sliced only when it has 64 bytes.
  pub new_evaluator-calm : (peer ca : Text) → new_evaluator G peer ca ≢ panic
  unfolding new_evaluator
  new_evaluator-calm peer ca = >>=-calm _ _ (ok_or-calm _ _) (λ ca_block e₁.
      >>=-calm _ _ (checked-calm _ _) (λ ca_cert e₂. >>=-calm _ _ (ecdsa_key-calm _) (λ key e₃.
        >>=-calm _ _ (ok_or-calm _ _) (λ peer_block e₄.
          >>=-calm _ _ (checked-calm _ _) (λ peer_cert e₅.
            >>=-calm _ _ (ok_or-calm _ _)
              (λ value e₆. >>=-calm _ _ (checked-calm _ _) (λ jwt e₇. parse_parts-calm key _)))))))
