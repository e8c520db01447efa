-- ===== src/Agent/Client/Requested.antt =====
-- What a request that succeeds has done.
use mathlib.Core.Path.{subst}
use vm_auth_scope.Base.{ℕ, ◌≡◌, ap, ◌∙◌, Option, ◌++◌, Bytes, Text}
use vm_auth_scope.Agent.Client.{
  host_cid, cert_request, on_disk, on_network, settle, exchange, request_cert,
}
use vm_auth_scope.Agent.Config.{AgentConfig, EntityEntry}
use vm_auth_scope.Agent.Csr.{GeneratedCsr, generate_csr}
use vm_auth_scope.Agent.Store.Stored.{IsStored, store_entity_credentials-IsStored}
use vm_auth_scope.Base.Result.{Result, ok}
use vm_auth_scope.Base.Result.Laws.{map_err-eq-ok}
use vm_auth_scope.Ca.Pki.{Pki}
use vm_auth_scope.Io.{AnyError, Run}
use vm_auth_scope.Io.Files.{Files, IsFiles}
use vm_auth_scope.Io.Laws.{>>=-eq-ok, lift-eq-ok, wrap-eq-ok}
use vm_auth_scope.Io.Stream.{Stream, IsStream}
use vm_auth_scope.Proto.Codec.{recv_json}
use vm_auth_scope.Proto.Codec.Frames.{frame, send_json-ok}
use vm_auth_scope.Proto.Json.{Json}
use vm_auth_scope.Proto.Wire.{CertRequest, CertResponse, issued, error}

module _ {D S : Type 0} {E A : Type 0} where
  on_disk-eq-ok :
      (m : Run D E A) (d : D) (s : S) (a : A) (d' : D) (s' : S)
      → on_disk m (d, s) ≡ (ok a, (d', s'))
      → (m d ≡ (ok a, d')) × (s ≡ s')
  unfolding on_disk
  on_disk-eq-ok m d s a d' s' h = (
    ap (λ (r : Result E A × (D × S)). (r.0, r.1.0)) h,
    ap (λ (r : Result E A × (D × S)). r.1.1) h,
  )

  on_network-eq-ok :
      (m : Run S E A) (d : D) (s : S) (a : A) (w : D × S)
      → on_network m (d, s) ≡ (ok a, w)
      → (m s ≡ (ok a, w.1)) × (d ≡ w.0)
  unfolding on_network
  on_network-eq-ok m d s a w h = (
    ap (λ (r : Result E A × (D × S)). (r.0, r.1.1)) h,
    ap (λ (r : Result E A × (D × S)). r.1.0) h,
  )

module _ (P : Pki) (S : Stream) (L : IsStream S) (F : Files) (D : IsFiles F) (Q : Json CertRequest)
    (R : Json CertResponse) (connect : ℕ → ℕ → ℕ → Run S.State AnyError (Unit {0})) where
  open S use {State}
  open F use {Disk}
  open L use {sent}
  open D use {Apart}

  -- On the new connection the request was sent as one frame, and then the response was received.
  pub record IsExchanged (cid : ℕ) (config : AgentConfig) (entity : EntityEntry)
      (generated : GeneratedCsr) (resp : CertResponse) (s t : State) : Type 0 where
    pub connected : State
    pub asked : State
    pub payload : Bytes
    pub dialled : connect cid config.server_port config.client_port s ≡ (ok tt, connected)
    pub encoded : Q.to_vec (cert_request config entity generated) ≡ ok payload
    pub grown : sent asked ≡ sent connected ++ frame payload
    pub received : recv_json S R asked ≡ (ok resp, t)

  exchange-IsExchanged :
      (cid : ℕ) (config : AgentConfig) (entity : EntityEntry) (generated : GeneratedCsr)
      (resp : CertResponse) (s t : State)
      → exchange P S F Q R connect cid config entity generated s ≡ (ok resp, t)
      → IsExchanged cid config entity generated resp s t
  unfolding exchange
  exchange-IsExchanged cid config entity generated resp s t h =
      let (_, s₁, e₁, h₁) = >>=-eq-ok _ _ s h in
      let (_, s₂, e₂, h₂) = >>=-eq-ok _ _ s₁ h₁ in
      let (payload, encoded, grown) = send_json-ok S L Q _ s₁ s₂ (wrap-eq-ok _ _ s₁ e₂) in
      record {
        connected = s₁;
        asked = s₂;
        payload = payload;
        dialled = wrap-eq-ok _ _ s e₁;
        encoded = encoded;
        grown = grown;
        received = wrap-eq-ok _ _ s₂ h₂;
      }

  -- The two files of the response and that of the generated key.
  pub record IsObtained (cid : ℕ) (config : AgentConfig) (entity : EntityEntry)
      (generated : GeneratedCsr) (s t : State) (d : Disk) : Type 0 where
    pub cert_pem : Text
    pub ca_pem : Text
    pub exchanged : IsExchanged cid config entity generated (issued cert_pem ca_pem) s t
    pub cert_stored :
        IsStored F D d entity.cert_path cert_pem entity.cert_mode entity.owner_uid entity.owner_gid
    pub key_stored :
        IsStored F D d entity.key_path generated.key_pem entity.key_mode entity.owner_uid
          entity.owner_gid
    pub ca_stored :
        IsStored F D d entity.ca_path ca_pem entity.cert_mode entity.owner_uid entity.owner_gid

  module _ (entity : EntityEntry) (key_apart : Apart entity.key_path entity.cert_path)
      (ca_apart : Apart entity.ca_path entity.cert_path)
      (ca_key_apart : Apart entity.ca_path entity.key_path) where
    settle-IsObtained :
        (cid : ℕ) (config : AgentConfig) (generated : GeneratedCsr) (resp : CertResponse)
        (s t : State) (d d' : Disk)
        → IsExchanged cid config entity generated resp s t
        → settle P S F Q R connect entity generated resp d ≡ (ok tt, d')
        → IsObtained cid config entity generated s t d'
    unfolding settle
    settle-IsObtained cid config generated (error text) s t d d' x h =
        absurd (cc (lift-eq-ok _ d h).0)
    settle-IsObtained cid config generated (issued cert_pem ca_pem) s t d d' x h =
        let (cert, key, ca) =
          store_entity_credentials-IsStored F D entity cert_pem generated.key_pem ca_pem d d'
            key_apart ca_apart ca_key_apart h in
        record {
          cert_pem = cert_pem;
          ca_pem = ca_pem;
          exchanged = x;
          cert_stored = cert;
          key_stored = key;
          ca_stored = ca;
        }

    -- When `request_cert` succeeds for an entity whose three paths lead to different files, a key and
    -- a request were generated, the request was sent on a new connection as one frame, the response
    -- that was received is a certificate with the authority's, and the disk holds both and that key,
    -- with the entity's owner and modes.
    pub request_cert-IsObtained :
        (variable : Option Text) (config : AgentConfig) (key_draw csr_draw : P.Draw) (d d' : Disk)
        (s t : State)
        → request_cert P S F Q R connect variable config entity key_draw csr_draw (d, s)
          ≡ (ok tt, (d', t))
        → (generated : GeneratedCsr) × (generate_csr P entity.name key_draw csr_draw ≡ ok generated)
          × IsObtained (host_cid variable) config entity generated s t d'
    unfolding request_cert
    request_cert-IsObtained variable config key_draw csr_draw d d' s t h =
        let (generated, w₁, e₁, h₁) = >>=-eq-ok _ _ (d, s) h in
        let (made, same) = lift-eq-ok _ (d, s) e₁ in
        let (resp, w₂, e₂, h₂) = >>=-eq-ok _ _ w₁ h₁ in
        let (asked, _) =
          on_network-eq-ok (exchange P S F Q R connect (host_cid variable) config entity generated)
            d s resp w₂
            (ap
                (on_network
                  (exchange P S F Q R connect (host_cid variable) config entity generated))
                same
              ∙ e₂) in
        let (settled, last) =
          on_disk-eq-ok (settle P S F Q R connect entity generated resp) w₂.0 w₂.1 tt d' t h₂ in
        let x =
          exchange-IsExchanged (host_cid variable) config entity generated resp s w₂.1 asked in
        (
          generated,
          map_err-eq-ok _ _ made,
          settle-IsObtained (host_cid variable) config generated resp s t w₂.0 d'
              (subst (IsExchanged (host_cid variable) config entity generated resp s) last x)
              settled,
        )
