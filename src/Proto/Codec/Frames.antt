-- ===== src/Proto/Codec/Frames.antt =====
-- What `send_json` and `recv_json` do to a stream, on every outcome.
use vm_auth_scope.Base.{
  ℕ, ◌≤◌, ◌%◌, ◌^◌, ◌≡◌, sym, ap, ◌∙◌, ◌++◌, Bytes, length, ltb, arith, Bool-cases, inl, inr,
}
use mathlib.Core.List.{append_assoc}
use vm_auth_scope.Base.Result.{ok, map_err}
use vm_auth_scope.Io.{io, json, lift, wrap}
use vm_auth_scope.Io.Stream.{Stream, IsStream, IsLive}
use vm_auth_scope.Io.Laws.{>>=-eq-ok, >>=_of_ok, Keeps, keeping, wrap-eq-ok, wrap_of_ok, lift-eq-ok}
use vm_auth_scope.Base.Result.Laws.{map_err-eq-ok}
use vm_auth_scope.Proto.Json.{Json}
use vm_auth_scope.Proto.Codec.{
  send_payload, send_json, recv_payload, recv_json, to_be_bytes, from_be_bytes, max_msg_bytes,
}

-- A frame as it stands on the wire.
abbrev pub frame : Bytes → Bytes
frame payload = to_be_bytes (length payload % 2 ^ 32) ++ payload

module _ {T : Type 0} (S : Stream) (L : IsStream S) (J : Json T) where
  open S use {State, read_exact, write_all, flush}
  open L use {unread, sent}

  read_exact-Keeps : (n : ℕ) → Keeps sent (read_exact n)
  read_exact-Keeps n = record { keeps = L.read_exact-sent n }

  write_all-Keeps : (b : Bytes) → Keeps unread (write_all b)
  write_all-Keeps b = record { keeps = L.write_all-unread b }

  flush-Keeps : Keeps unread flush
  flush-Keeps = record { keeps = L.flush-unread }

  -- Reading sends nothing, and sending reads nothing.
  pub recv_json-sent : Keeps sent (recv_json S J)
  unfolding recv_json recv_payload
  recv_json-sent = search (keeping, read_exact-Keeps) depth 8

  pub send_json-unread : (v : T) → Keeps unread (send_json S J v)
  unfolding send_json send_payload
  send_json-unread v = search (keeping, write_all-Keeps, flush-Keeps) depth 8

  write_all-sent_ok :
      (b : Bytes) (s : State) {t : State}
      → wrap io (write_all b) s ≡ (ok tt, t)
      → sent t ≡ sent s ++ b
  write_all-sent_ok b s {t} h = L.write_all-ok b s t (wrap-eq-ok io _ s h)

  flush-sent_ok : (s : State) {t : State} → wrap io flush s ≡ (ok tt, t) → sent t ≡ sent s
  flush-sent_ok s h = rw (wrap-eq-ok io _ s h) at (L.flush-sent s)

  send_payload-ok :
      (payload : Bytes) (s t : State)
      → send_payload S J payload s ≡ (ok tt, t)
      → sent t ≡ sent s ++ frame payload
  unfolding send_payload
  send_payload-ok payload s t h =
      let (_, s₁, e₁, h₁) = >>=-eq-ok _ _ s h in
      let (_, s₂, e₂, h₂) = >>=-eq-ok _ _ s₁ h₁ in
      flush-sent_ok s₂ h₂
      ∙ write_all-sent_ok payload s₁ e₂
      ∙ ap (λ b. b ++ payload) (write_all-sent_ok _ s e₁)
      ∙ append_assoc _ _ payload

  pub send_json-ok :
      (v : T) (s t : State)
      → send_json S J v s ≡ (ok tt, t)
      → (payload : Bytes) × (J.to_vec v ≡ ok payload) × (sent t ≡ sent s ++ frame payload)
  unfolding send_json
  send_json-ok v s t h =
      let (payload, s₀, e₀, h₀) = >>=-eq-ok _ _ s h in
      let (made, same) = lift-eq-ok _ s e₀ in
      (
        payload,
        map_err-eq-ok json _ made,
        send_payload-ok payload s₀ t h₀ ∙ ap (λ u. sent u ++ frame payload) (sym same),
      )

  send_payload_live :
      (A : IsLive S L) (payload : Bytes) (s : State)
      → A.Up s
      → (t : State) × (send_payload S J payload s ≡ (ok tt, t)) × A.Up t
  unfolding send_payload
  send_payload_live A payload s up =
      let (s₁, e₁, up₁) = A.write_live (to_be_bytes (length payload % 2 ^ 32)) s up in
      let (s₂, e₂, up₂) = A.write_live payload s₁ up₁ in
      let (t, e₃, up₃) = A.flush_live s₂ up₂ in
      (
        t,
        >>=_of_ok _ _ s (wrap_of_ok io _ s e₁)
            ∙ >>=_of_ok _ _ s₁ (wrap_of_ok io _ s₁ e₂)
            ∙ wrap_of_ok io _ s₂ e₃,
        up₃,
      )

  -- On a connection that stays up a value with a JSON form is sent.
  pub send_json_live :
      (A : IsLive S L) (v : T) (payload : Bytes) (s : State)
      → A.Up s
      → J.to_vec v ≡ ok payload
      → (t : State) × (send_json S J v s ≡ (ok tt, t)) × A.Up t
  unfolding send_json lift map_err
  send_json_live A v payload s up e =
      let (t, h, up') = send_payload_live A payload s up in (t, >>=_of_ok _ _ s (rw e) ∙ h, up')

  recv_payload-ok :
      (len : ℕ) (s t : State) (v : T)
      → recv_payload S J len s ≡ (ok v, t)
      → (payload : Bytes) × (length payload ≡ len)
        × (len ≤ max_msg_bytes)
        × (J.from_slice payload ≡ ok v)
        × (unread s ≡ payload ++ unread t)
  unfolding recv_payload
  recv_payload-ok len s t v h = elim (Bool-cases (ltb max_msg_bytes len)) [
    | inl large ↦ absurd (cc (lift-eq-ok _ s (rw large at h)).0)
    | inr fits ↦
        let (b, u, read, done) = >>=-eq-ok _ _ s (rw fits at h) in
        let (parsed, same) = lift-eq-ok _ u done in
        let (n, taken) = L.read_exact-ok len s b u (wrap-eq-ok io _ s read) in
        (b, n, ground arith, map_err-eq-ok json _ parsed, taken ∙ ap (λ w. b ++ unread w) same)
  ]

  -- A received value was decoded from a frame in front of what is now unread.
  pub recv_json-ok :
      (s t : State) (v : T)
      → recv_json S J s ≡ (ok v, t)
      → (header : Bytes) × (payload : Bytes) × (length header ≡ 4)
        × (length payload ≡ from_be_bytes header)
        × (length payload ≤ max_msg_bytes)
        × (J.from_slice payload ≡ ok v)
        × (unread s ≡ header ++ (payload ++ unread t))
  unfolding recv_json
  recv_json-ok s t v h =
      let (header, u, read, rest) = >>=-eq-ok _ _ s h in
      let (four, taken) = L.read_exact-ok 4 s header u (wrap-eq-ok io _ s read) in
      let (payload, n, fits, parsed, left) = recv_payload-ok (from_be_bytes header) u t v rest in
      (header, payload, four, n, rw n fits, parsed, taken ∙ ap (λ b. header ++ b) left)
