-- ===== src/Agent/Store/Kept.antt =====
-- Storing leaves alone the files under other paths, however it ends.
use vm_auth_scope.Base.{ℕ, Option, none, some, Bytes, Text}
use vm_auth_scope.Agent.Config.{EntityEntry}
use vm_auth_scope.Agent.Store.{create_parent, write_file, store_entity_credentials}
use vm_auth_scope.Io.Files.{Files, IsFiles}
use vm_auth_scope.Io.Files.Kept.{file_keeping}
use vm_auth_scope.Io.Laws.{Keeps}

module _ (F : Files) (L : IsFiles F) where
  open L use {entry, Apart}

  create_parent-Keeps :
      {q : Text} (dir : Option Text) → Keeps (λ d. entry d q) (create_parent F dir)
  unfolding create_parent
  create_parent-Keeps none = search file_keeping
  create_parent-Keeps (some dir) = search file_keeping

  pub write_file-Keeps :
      {path q : Text} (contents : Bytes) (mode_str : Text) (uid gid : ℕ)
      → Apart path q
      → Keeps (λ d. entry d q) (write_file F path contents mode_str uid gid)
  unfolding write_file
  write_file-Keeps contents mode_str uid gid apart =
      search (file_keeping, create_parent-Keeps, apart) depth 12

  pub store_entity_credentials-Keeps :
      {q : Text} (entity : EntityEntry) (cert_pem key_pem ca_pem : Text)
      → Apart entity.cert_path q
      → Apart entity.key_path q
      → Apart entity.ca_path q
      → Keeps (λ d. entry d q) (store_entity_credentials F entity cert_pem key_pem ca_pem)
  unfolding store_entity_credentials
  store_entity_credentials-Keeps entity cert_pem key_pem ca_pem a b c =
      search (file_keeping, write_file-Keeps, a, b, c) depth 12
