-- ===== src/Ca/Storage/Reload.antt =====
-- What `init` leaves on disk, and that `load` reads it back.
use mathlib.Core.Path.{subst}
use mathlib.Core.Option.{some-injective}
use vm_auth_scope.Base.{◌≡◌, sym, ap, ◌∙◌, false, some, List, Bytes, Text, arith}
use vm_auth_scope.Base.Result.{Result, ok, map_err}
use vm_auth_scope.Base.Result.Laws.{ok_injective}
use vm_auth_scope.Ca.Authority.{CertificateAuthority}
use vm_auth_scope.Ca.Pki.{Pki}
use vm_auth_scope.Ca.Storage.{first_ok, load, set_mode_600, save, authority_of, generate, init}
use vm_auth_scope.Io.{IoError, lift}
use vm_auth_scope.Io.Files.{Files, File, IsFiles}
use vm_auth_scope.Io.Files.Kept.{file_keeping, write-Keeps, set_mode-Keeps}
use vm_auth_scope.Io.Laws.{
  Keeps, Keeps-eq, >>=-eq-ok, >>=_of_ok, lift-eq-ok, wrap-eq-ok, wrap_of_ok,
}

-- The crates read back what they print: a key's PEM gives a key with the same DER, and a
-- certificate's PEM begins with the block of its DER.
pub record IsReadBack (P : Pki) (certs : Text → List (Result IoError Bytes)) : Type 0 where
  pub key_from_pem-serialize_pem :
      (k : P.KeyPair)
      → (k' : P.KeyPair) × (P.key_from_pem (P.serialize_pem k) ≡ ok k')
        × (P.serialize_der k' ≡ P.serialize_der k)
  pub certs-cert_pem : (c : P.Certificate) → first_ok (certs (P.cert_pem c)) ≡ some (P.cert_der c)

module _ (F : Files) (L : IsFiles F) (P : Pki) (certs : Text → List (Result IoError Bytes)) where
  open F use {Disk, parent}
  open L use {entry, Apart}

  -- Under the two paths are the PEM texts of the authority, which was made of a key and a
  -- certificate, and the key is for its owner alone.
  pub record IsSaved (cert_path key_path : Text) (ca : CertificateAuthority) (t : Disk)
      : Type 0 where
    pub key_pair : P.KeyPair
    pub cert : P.Certificate
    pub made : ca ≡ authority_of F P certs key_pair cert
    pub cert_file : File
    pub key_file : File
    pub cert_held : entry t cert_path ≡ some cert_file
    pub cert_content : cert_file.content ≡ ca.cert_pem
    pub key_held : entry t key_path ≡ some key_file
    pub key_content : key_file.content ≡ ca.key_pem
    pub key_mode : key_file.mode ≡ 0o600

  save-IsSaved :
      (cert_path key_path : Text) (k : P.KeyPair) (c : P.Certificate) (ca : CertificateAuthority)
      (s t : Disk)
      → Apart key_path cert_path
      → save F P certs cert_path key_path (authority_of F P certs k c) s ≡ (ok ca, t)
      → IsSaved cert_path key_path ca t
  unfolding save set_mode_600
  save-IsSaved cert_path key_path k c ca s t apart h =
      let (_, s₁, e₁, h₁) = >>=-eq-ok _ _ s h in
      let (_, s₂, e₂, h₂) = >>=-eq-ok _ _ s₁ h₁ in
      let (_, s₃, e₃, h₃) = >>=-eq-ok _ _ s₂ h₂ in
      let (_, s₄, e₄, h₄) = >>=-eq-ok _ _ s₃ h₃ in
      let (_, s₅, e₅, h₅) = >>=-eq-ok _ _ s₄ h₄ in
      let (same, back) = lift-eq-ok _ s₅ h₅ in
      let set = wrap-eq-ok _ _ s₄ e₅ in
      let written = wrap-eq-ok _ _ s₃ e₄ in
      let (f, held, content) = L.write-ok cert_path _ s₂ s₃ (wrap-eq-ok _ _ s₂ e₃) in
      let (g, held', content') = L.write-ok key_path _ s₃ s₄ written in
      let (g', held'', content'', mode) = L.set_mode-ok key_path 0o600 s₄ s₅ g set held' in
      let cert_kept =
        Keeps-eq {view = λ d. entry d cert_path} (set_mode-Keeps F L 0o600 apart) set
        ∙ Keeps-eq {view = λ d. entry d cert_path} (write-Keeps F L _ apart) written in
      let ca_made = ok_injective same in
      subst (IsSaved cert_path key_path ca) back (record {
        key_pair = k;
        cert = c;
        made = sym ca_made;
        cert_file = f;
        key_file = g';
        cert_held = cert_kept ∙ held;
        cert_content = content ∙ ap (λ a. a.cert_pem) ca_made;
        key_held = held'';
        key_content = content'' ∙ content' ∙ ap (λ a. a.key_pem) ca_made;
        key_mode = mode (omega arith);
      })

  generate-IsSaved :
      (cert_path key_path : Text) (d d' : P.Draw) (ca : CertificateAuthority) (s t : Disk)
      → Apart key_path cert_path
      → generate F P certs cert_path key_path d d' s ≡ (ok ca, t)
      → IsSaved cert_path key_path ca t
  unfolding generate
  generate-IsSaved cert_path key_path d d' ca s t apart h =
      let (k, s₁, _, h₁) = >>=-eq-ok _ _ s h in
      let (_, s₂, _, h₂) = >>=-eq-ok _ _ s₁ h₁ in
      let (_, s₃, _, h₃) = >>=-eq-ok _ _ s₂ h₂ in
      let (c, s₄, _, h₄) = >>=-eq-ok _ _ s₃ h₃ in
      save-IsSaved cert_path key_path k c ca s₄ t apart h₄

  -- When `init` succeeds and is not asked to keep what is there, and the two paths lead to
  -- different files, the disk holds the PEM texts of the authority that it returns, and the key's
  -- file has the mode 0600.
  pub init-IsSaved :
      (cert_path key_path : Text) (d d' : P.Draw) (ca : CertificateAuthority) (s t : Disk)
      → Apart key_path cert_path
      → init F P certs cert_path key_path false d d' s ≡ (ok ca, t)
      → IsSaved cert_path key_path ca t
  unfolding init
  init-IsSaved cert_path key_path d d' ca s t apart h =
      generate-IsSaved cert_path key_path d d' ca _ t apart h

  read_held :
      (path text : Text) (f : File) (t u : Disk)
      → entry t path ≡ some f
      → F.read_to_string path t ≡ (ok text, u)
      → text ≡ f.content
  read_held path text f t u held read =
      let (g, held', same) = L.read_to_string-ok path text t u read in
      same ∙ ap (λ (k : File). k.content) (some-injective g f (sym held' ∙ held))

  -- The texts of a key and its certificate give their authority.
  load_printed :
      (cert_path key_path : Text) (k : P.KeyPair) (c : P.Certificate) (s t u : Disk)
      → IsReadBack P certs
      → F.read_to_string cert_path s ≡ (ok (P.cert_pem c), t)
      → F.read_to_string key_path t ≡ (ok (P.serialize_pem k), u)
      → load F P certs cert_path key_path s ≡ (ok (authority_of F P certs k c), u)
  unfolding load lift map_err
  load_printed cert_path key_path k c s t u R read_cert read_key =
      let (k', parsed, same) = R.key_from_pem-serialize_pem k in
      >>=_of_ok _ _ s (wrap_of_ok _ _ s read_cert)
      ∙ >>=_of_ok _ _ t (wrap_of_ok _ _ t read_key)
      ∙ >>=_of_ok _ _ u {a = k'} {u = u} (rw parsed)
      ∙ >>=_of_ok _ _ u {a = P.cert_der c} {u = u} (rw (R.certs-cert_pem c))
      ∙ (rw same)

  -- From a disk that holds a saved authority, `load` gives that authority, provided that both files
  -- can be read.
  pub load-IsSaved :
      (cert_path key_path cert_text key_text : Text) (ca : CertificateAuthority) (s t u : Disk)
      → IsReadBack P certs
      → IsSaved cert_path key_path ca s
      → F.read_to_string cert_path s ≡ (ok cert_text, t)
      → F.read_to_string key_path t ≡ (ok key_text, u)
      → load F P certs cert_path key_path s ≡ (ok ca, u)
  load-IsSaved cert_path key_path cert_text key_text ca s t u R h read_cert read_key =
      let kept : entry t key_path ≡ entry s key_path =
        rw read_cert at (L.read_to_string-entry cert_path s key_path) in
      let cert_same =
        read_held cert_path cert_text h.cert_file s t h.cert_held read_cert
        ∙ h.cert_content
        ∙ ap (λ (a : CertificateAuthority). a.cert_pem) h.made in
      let key_same =
        read_held key_path key_text h.key_file t u (kept ∙ h.key_held) read_key
        ∙ h.key_content
        ∙ ap (λ (a : CertificateAuthority). a.key_pem) h.made in
      load_printed cert_path key_path h.key_pair h.cert s t u R
        (read_cert ∙ ap (λ x. (ok x, t)) cert_same) (read_key ∙ ap (λ x. (ok x, u)) key_same)
      ∙ ap (λ a. (ok a, u)) (sym h.made)

  -- After an `init` that succeeds and is not asked to keep what is there, with paths that lead to
  -- different files, `load` gives the authority that `init` returned, provided that both files can
  -- be read and that the crates read back the PEM texts that they print.
  pub load-init :
      (cert_path key_path cert_text key_text : Text) (d d' : P.Draw) (ca : CertificateAuthority)
      (s t u v : Disk)
      → IsReadBack P certs
      → Apart key_path cert_path
      → init F P certs cert_path key_path false d d' s ≡ (ok ca, t)
      → F.read_to_string cert_path t ≡ (ok cert_text, u)
      → F.read_to_string key_path u ≡ (ok key_text, v)
      → load F P certs cert_path key_path t ≡ (ok ca, v)
  load-init cert_path key_path cert_text key_text d d' ca s t u v R apart done read_cert read_key =
      load-IsSaved cert_path key_path cert_text key_text ca t u v R
        (init-IsSaved cert_path key_path d d' ca s t apart done) read_cert read_key

module _ (F : Files) (L : IsFiles F) (P : Pki) (certs : Text → List (Result IoError Bytes))
    {q : Text} where
  -- Loading changes no file, whatever it comes to.
  pub load-Keeps :
      (cert_path key_path : Text) → Keeps (λ d. L.entry d q) (load F P certs cert_path key_path)
  unfolding load
  load-Keeps cert_path key_path = search file_keeping depth 12
