-- ===== src/Agent/Store/Stored.antt =====
-- What the agent leaves on disk.
use vm_auth_scope.Base.{ℕ, ◌<◌, ◌≡◌, ap, ◌∙◌, some, Bytes, Text, arith}
use vm_auth_scope.Agent.Config.{EntityEntry}
use vm_auth_scope.Agent.Store.{parse_octal_mode, write_file, store_entity_credentials}
use vm_auth_scope.Agent.Store.Kept.{write_file-Keeps}
use vm_auth_scope.Base.Result.{ok}
use vm_auth_scope.Base.Result.Laws.{map_err-eq-ok}
use vm_auth_scope.Io.Files.{Files, File, IsFiles}
use vm_auth_scope.Io.Laws.{Keeps-eq, >>=-eq-ok, lift-eq-ok, wrap-eq-ok}

module _ (F : Files) (L : IsFiles F) where
  open F use {Disk, parent}
  open L use {entry, Apart}

  -- The path has the content and the owner, and the mode that the text says, if that has no set-user,
  -- set-group or sticky bit.
  pub record IsStored (t : Disk) (path : Text) (content : Bytes) (mode_str : Text) (uid gid : ℕ)
      : Type 0 where
    pub file : File
    pub mode : ℕ
    pub held : entry t path ≡ some file
    pub same_content : file.content ≡ content
    pub mode_read : parse_octal_mode mode_str ≡ ok mode
    pub same_mode : mode < 0o1000 → file.mode ≡ mode
    pub same_uid : file.uid ≡ uid
    pub same_gid : file.gid ≡ gid

  pub kept-IsStored :
      {path : Text} {content : Bytes} {mode_str : Text} {uid gid : ℕ} (s t : Disk)
      → entry t path ≡ entry s path
      → IsStored s path content mode_str uid gid
      → IsStored t path content mode_str uid gid
  kept-IsStored s t e h = record {
    file = h.file;
    mode = h.mode;
    held = e ∙ h.held;
    same_content = h.same_content;
    mode_read = h.mode_read;
    same_mode = h.same_mode;
    same_uid = h.same_uid;
    same_gid = h.same_gid;
  }

  -- The steps of `write_file` that changed the path.
  record IsWritten (path : Text) (contents : Bytes) (mode_str : Text) (uid gid : ℕ) (t : Disk)
      : Type 0 where
    pub made : Disk
    pub filled : Disk
    pub allowed : Disk
    pub mode : ℕ
    pub written : F.write path contents made ≡ (ok tt, filled)
    pub mode_read : parse_octal_mode mode_str ≡ ok mode
    pub mode_set : F.set_mode path mode filled ≡ (ok tt, allowed)
    pub owned : F.chown path uid gid allowed ≡ (ok tt, t)

  write_file-IsWritten :
      (path : Text) (contents : Bytes) (mode_str : Text) (uid gid : ℕ) (s t : Disk)
      → write_file F path contents mode_str uid gid s ≡ (ok tt, t)
      → IsWritten path contents mode_str uid gid t
  unfolding write_file
  write_file-IsWritten path contents mode_str uid gid s t h =
      let (_, made, e₁, h₁) = >>=-eq-ok _ _ s h in
      let (_, filled, e₂, h₂) = >>=-eq-ok _ _ made h₁ in
      let (mode, filled', e₃, h₃) = >>=-eq-ok _ _ filled h₂ in
      let (_, allowed, e₄, h₄) = >>=-eq-ok _ _ filled' h₃ in
      let (read, same) = lift-eq-ok _ filled e₃ in
      record {
        made = made;
        filled = filled;
        allowed = allowed;
        mode = mode;
        written = wrap-eq-ok _ _ made e₂;
        mode_read = map_err-eq-ok _ _ read;
        mode_set = ap (F.set_mode path mode) same ∙ wrap-eq-ok _ _ filled' e₄;
        owned = wrap-eq-ok _ _ allowed h₄;
      }

  write_file-IsStored :
      (path : Text) (contents : Bytes) (mode_str : Text) (uid gid : ℕ) (t : Disk)
      → IsWritten path contents mode_str uid gid t
      → IsStored t path contents mode_str uid gid
  write_file-IsStored path contents mode_str uid gid t w =
      let (f, held, content) = L.write-ok path contents w.made w.filled w.written in
      let (g, held', content', mode') =
        L.set_mode-ok path w.mode w.filled w.allowed f w.mode_set held in
      let (k, held'', content'', same_uid, same_gid, mode'') =
        L.chown-ok path uid gid w.allowed t g w.owned held' in
      record {
        file = k;
        mode = w.mode;
        held = held'';
        same_content = content'' ∙ content' ∙ content;
        mode_read = w.mode_read;
        same_mode = λ small. mode'' (omega (arith, mode' small, small)) ∙ mode' small;
        same_uid = same_uid;
        same_gid = same_gid;
      }

  -- When `store_entity_credentials` succeeds for an entity whose three paths lead to different
  -- files, the disk holds the certificate, the key and the authority's certificate under them, each
  -- with the entity's owner and with its mode, as far as that is of the nine permission bits.
  pub store_entity_credentials-IsStored :
      (entity : EntityEntry) (cert_pem key_pem ca_pem : Text) (s t : Disk)
      → Apart entity.key_path entity.cert_path
      → Apart entity.ca_path entity.cert_path
      → Apart entity.ca_path entity.key_path
      → store_entity_credentials F entity cert_pem key_pem ca_pem s ≡ (ok tt, t)
      → IsStored t entity.cert_path cert_pem entity.cert_mode entity.owner_uid entity.owner_gid
        × IsStored t entity.key_path key_pem entity.key_mode entity.owner_uid entity.owner_gid
        × IsStored t entity.ca_path ca_pem entity.cert_mode entity.owner_uid entity.owner_gid
  unfolding store_entity_credentials
  store_entity_credentials-IsStored entity cert_pem key_pem ca_pem s t a₁ a₂ a₃ h =
      let (_, s₁, e₁, h₁) = >>=-eq-ok _ _ s h in
      let (_, s₂, e₂, h₂) = >>=-eq-ok _ _ s₁ h₁ in
      let f₂ = wrap-eq-ok _ _ s₁ e₂ in
      let f₃ = wrap-eq-ok _ _ s₂ h₂ in
      let kept₂ =
        Keeps-eq (write_file-Keeps F L key_pem entity.key_mode entity.owner_uid entity.owner_gid a₁)
          f₂ in
      let kept₃ =
        Keeps-eq (write_file-Keeps F L ca_pem entity.cert_mode entity.owner_uid entity.owner_gid a₂)
          f₃ in
      let kept₃' =
        Keeps-eq (write_file-Keeps F L ca_pem entity.cert_mode entity.owner_uid entity.owner_gid a₃)
          f₃ in
      (
        kept-IsStored s₂ t kept₃ (
            kept-IsStored s₁ s₂ kept₂ (
              write_file-IsStored _ _ _ _ _ s₁
                (write_file-IsWritten _ _ _ _ _ s s₁ (wrap-eq-ok _ _ s e₁)))),
        kept-IsStored s₂ t kept₃'
            (write_file-IsStored _ _ _ _ _ s₂ (write_file-IsWritten _ _ _ _ _ s₁ s₂ f₂)),
        write_file-IsStored _ _ _ _ _ t (write_file-IsWritten _ _ _ _ _ s₂ t f₃),
      )
