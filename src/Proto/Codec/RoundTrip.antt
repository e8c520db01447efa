-- ===== src/Proto/Codec/RoundTrip.antt =====
-- A value that was sent is received, and how much of the stream a receiver can take.
use vm_auth_scope.Base.{
  ℕ, ◌≤◌, ◌<◌, ◌%◌, ◌^◌, ◌≡◌, refl, sym, ap, ◌∙◌, ◌++◌, Bytes, length, ltb, arith, true, false,
  length-append, append_cancel,
}
use mathlib.Core.List.{append_assoc}
use vm_auth_scope.Base.Result.{ok, err, map_err}
use vm_auth_scope.Io.{io, json, lift}
use vm_auth_scope.Io.Stream.{Stream, IsStream, IsLive}
use vm_auth_scope.Io.Laws.{>>=_of_ok, wrap_of_ok}
use vm_auth_scope.Proto.Json.{Json, IsJson}
use vm_auth_scope.Proto.Codec.{
  send_json, recv_payload, recv_json, too_large, to_be_bytes, max_msg_bytes,
}
use vm_auth_scope.Proto.Codec.Words.{length-to_be_bytes, from_be_bytes-to_be_bytes}
use vm_auth_scope.Proto.Codec.Frames.{frame, send_json-ok}

module _ {T : Type 0} (S : Stream) (L : IsStream S) (A : IsLive S L) (J : Json T) where
  open S use {State, read_exact}
  open L use {unread, sent}

  -- Bytes in front of the unread ones can be read in one call.
  read_front :
      (s : State) (front rest : Bytes)
      → A.Up s
      → unread s ≡ front ++ rest
      → (t : State) × (read_exact (length front) s ≡ (ok front, t)) × (unread t ≡ rest) × A.Up t
  read_front s front rest up e =
      let (b, t, read, up') =
        A.read_live (length front) s up (omega (arith, ap length e, length-append front rest)) in
      let (n, taken) = L.read_exact-ok (length front) s b t read in
      let (same, left) = append_cancel b front (unread t) rest n (sym taken ∙ e) in
      (t, read ∙ ap (λ x. (ok x, t)) same, left, up')

  recv_payload_live :
      (s : State) (payload rest : Bytes)
      → A.Up s
      → length payload ≤ max_msg_bytes
      → unread s ≡ payload ++ rest
      → (t : State) × (recv_payload S J (length payload) s
          ≡ (map_err json (J.from_slice payload), t))
        × (unread t ≡ rest)
        × A.Up t
  unfolding recv_payload lift
  recv_payload_live s payload rest up fits e =
      let (t, read, left, up') = read_front s payload rest up e in
      let small : ltb max_msg_bytes (length payload) ≡ false = ground arith in
      (t, rw small (>>=_of_ok _ _ s (wrap_of_ok io _ s read)), left, up')

  recv_json_front :
      (s : State) (len : ℕ) (rest : Bytes)
      → A.Up s
      → len < 2 ^ 32
      → unread s ≡ to_be_bytes len ++ rest
      → (t : State) × (recv_json S J s ≡ recv_payload S J len t) × (unread t ≡ rest) × A.Up t
  unfolding recv_json
  recv_json_front s len rest up fits e =
      let (t, read, left, up') = read_front s (to_be_bytes len) rest up e in
      let read' = rw (length-to_be_bytes len) at read in
      (
        t,
        >>=_of_ok _ _ s (wrap_of_ok io _ s read')
            ∙ ap (λ n. recv_payload S J n t) (from_be_bytes-to_be_bytes len fits),
        left,
        up',
      )

  -- A frame that fits is taken off the stream whole, and its payload decoded.
  pub recv_json_live :
      (s : State) (payload rest : Bytes)
      → A.Up s
      → length payload ≤ max_msg_bytes
      → unread s ≡ frame payload ++ rest
      → (t : State) × (recv_json S J s ≡ (map_err json (J.from_slice payload), t))
        × (unread t ≡ rest)
        × A.Up t
  recv_json_live s payload rest up fits e =
      let whole : length payload % 2 ^ 32 ≡ length payload = omega arith in
      let (u, begun, left, up') =
        recv_json_front s (length payload % 2 ^ 32) (payload ++ rest) up (omega arith)
          (e ∙ append_assoc _ payload rest) in
      let (t, read, left', up'') = recv_payload_live u payload rest up' fits left in
      (t, begun ∙ ap (λ n. recv_payload S J n u) whole ∙ read, left', up'')

  -- What `send_json` has sent, `recv_json` at the other end receives, and takes no byte more,
  -- provided that the value's JSON form has at most 4 MiB and that the receiver's connection is up
  -- and has those bytes in front.
  pub recv_json-send_json :
      IsJson J
      → (v : T) (payload bytes rest : Bytes) (s t r : State) → J.to_vec v ≡ ok payload
      → length payload ≤ max_msg_bytes
      → send_json S J v s ≡ (ok tt, t)
      → sent t ≡ sent s ++ bytes
      → A.Up r
      → unread r ≡ bytes ++ rest
      → (r' : State) × (recv_json S J r ≡ (ok v, r')) × (unread r' ≡ rest)
  unfolding map_err
  recv_json-send_json I v payload bytes rest s t r made fits done grown up e =
      let (payload', made', grown') = send_json-ok S L J v s t done in
      let same : payload' ≡ payload = ground (arith, made, made') in
      let (_, wire) =
        append_cancel (sent s) (sent s) bytes (frame payload') refl (sym grown ∙ grown') in
      let (r', got, left, _) =
        recv_json_live r payload rest up fits (e ∙ ap (λ b. b ++ rest) (wire ∙ ap frame same)) in
      (r', got ∙ ap (λ x. (map_err json x, r')) (I.from_slice-to_vec v payload made), left)

  -- On a connection that is up, a frame of more than 4 MiB (and less than 2 ^ 32 bytes) is refused,
  -- and nothing behind its length is read.
  pub recv_json-too_large :
      (s : State) (payload rest : Bytes)
      → A.Up s
      → max_msg_bytes < length payload
      → length payload < 2 ^ 32
      → unread s ≡ frame payload ++ rest
      → (t : State) × (recv_json S J s ≡ (err (too_large (length payload)), t))
        × (unread t ≡ payload ++ rest)
  unfolding recv_payload lift
  recv_json-too_large s payload rest up large fits e =
      let whole : length payload % 2 ^ 32 ≡ length payload = omega arith in
      let over : ltb max_msg_bytes (length payload) ≡ true = ground arith in
      let (t, begun, left, _) =
        recv_json_front s (length payload % 2 ^ 32) (payload ++ rest) up (omega arith)
          (e ∙ append_assoc _ payload rest) in
      (t, begun ∙ ap (λ n. recv_payload S J n t) whole ∙ rw over, left)
