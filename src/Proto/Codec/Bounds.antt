-- ===== src/Proto/Codec/Bounds.antt =====
-- How much of the stream `recv_json` can take, whatever the peer sends.
use vm_auth_scope.Base.{
  ℕ, ◌+◌, ◌≤◌, ◌≡◌, refl, sym, ap, ◌∙◌, Bool-cases, inl, inr, [], ◌++◌, Bytes, length,
  length-append, ltb, arith,
}
use mathlib.Core.List.{append_assoc}
use vm_auth_scope.Base.Result.{Result, ok, err, panic}
use vm_auth_scope.Io.{Run, follow, ◌>>=◌, lift, wrap, io}
use vm_auth_scope.Io.Stream.{Stream, IsStream}
use vm_auth_scope.Proto.Codec.{recv_payload, recv_json, max_msg_bytes, from_be_bytes}
use vm_auth_scope.Proto.Json.{Json}

-- The bytes that stand in front of the rest, no more than `n`.
pub record IsTaken (n : ℕ) (whole rest : Bytes) : Type 0 where
  pub taken : Bytes
  pub split : whole ≡ taken ++ rest
  pub few : length taken ≤ n

none-IsTaken : (n : ℕ) (b : Bytes) → IsTaken n b b
none-IsTaken n b = record { taken = []; split = refl; few = ground arith }

both-IsTaken : (m n : ℕ) (a b c : Bytes) → IsTaken m a b → IsTaken n b c → IsTaken (m + n) a c
both-IsTaken m n a b c h k = record {
  taken = h.taken ++ k.taken;
  split = h.split ∙ ap (λ x. h.taken ++ x) k.split ∙ sym (append_assoc h.taken k.taken c);
  few = omega (arith, length-append h.taken k.taken, h.few, k.few);
}

module _ {S : Type 0} (view : S → Bytes) {E A B : Type 0} where
  follow-IsTaken :
      (n : ℕ) (r : Result E A × S) (f : A → Run S E B)
      → ((a : A) (s : S) → IsTaken n (view s) (view (f a s).1))
      → IsTaken n (view r.1) (view (follow f r).1)
  unfolding follow
  follow-IsTaken n (ok a, s) f h = h a s
  follow-IsTaken n (err e, s) f h = none-IsTaken n (view s)
  follow-IsTaken n (panic, s) f h = none-IsTaken n (view s)

  >>=-IsTaken :
      (m n : ℕ) (k : Run S E A) (f : A → Run S E B) (s : S)
      → IsTaken m (view s) (view (k s).1)
      → ((a : A) (t : S) → IsTaken n (view t) (view (f a t).1))
      → IsTaken (m + n) (view s) (view ((k >>= f) s).1)
  unfolding ◌>>=◌
  >>=-IsTaken m n k f s hk hf =
      both-IsTaken m n (view s) (view (k s).1) _ hk (follow-IsTaken n (k s) f hf)

module _ {T : Type 0} (S : Stream) (L : IsStream S) (J : Json T) where
  open S use {State, read_exact}
  open L use {unread}

  read_exact-IsTaken :
      {n m : ℕ} (s : State) → n ≤ m → IsTaken m (unread s) (unread (wrap io (read_exact n) s).1)
  unfolding wrap
  read_exact-IsTaken {n} {m} s le =
      let (taken, split, few) = L.read_exact-unread n s in
      record { taken = taken; split = split; few = omega (arith, few, le) }

  recv_payload-IsTaken :
      (len : ℕ) (s : State) → IsTaken max_msg_bytes (unread s) (unread (recv_payload S J len s).1)
  unfolding recv_payload lift
  recv_payload-IsTaken len s = elim (Bool-cases (ltb max_msg_bytes len)) [
    | inl large ↦ rw large (none-IsTaken _ (unread s))
    | inr fits ↦ rw fits (
        >>=-IsTaken unread max_msg_bytes 0 _ _ s (read_exact-IsTaken s (ground arith))
          (λ b t. none-IsTaken 0 (unread t)))
  ]

  -- Whatever the bytes that arrive and however the call ends, `recv_json` takes at most four bytes
  -- and 4 MiB off the stream, all from its front.
  pub recv_json-IsTaken :
      (s : State) → IsTaken (4 + max_msg_bytes) (unread s) (unread (recv_json S J s).1)
  unfolding recv_json
  recv_json-IsTaken s =
      >>=-IsTaken unread 4 max_msg_bytes _ _ s (read_exact-IsTaken s (ground arith))
        (λ b t. recv_payload-IsTaken (from_be_bytes b) t)
