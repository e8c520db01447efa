-- ===== src/Agent/Store.antt =====
-- apps/rust-apps/auth-scope-agent/src/store.rs
pub mod Mode
pub mod Kept
pub mod Stored
use vm_auth_scope.Base.{
  ℕ, Option, none, some, List, [], ◌∷◌, ◌++◌, Bytes, Text, codes, ◌==◌, nat_eq, if◌then◌else◌,
}
use vm_auth_scope.Base.Number.{from_str_radix, to_text}
use vm_auth_scope.Base.Result.{Result, ok, err, map_err}
use vm_auth_scope.Agent.Config.{EntityEntry}
use vm_auth_scope.Io.{AnyError, io, parse_int, context, Run, ◌>>=◌, ◌>>◌, lift, wrap}
use vm_auth_scope.Io.Files.{Files}

-- `trim_start_matches('0')`
unfoldable pub trim_zeros : Text → Text
trim_zeros [] = []
trim_zeros (c ∷ s) = let rest = trim_zeros s in if c == b'0' then rest else c ∷ s

abbrev pub or_zero : Text → Text
or_zero [] = codes "0"
or_zero (c ∷ s) = c ∷ s

unfoldable pub parse_octal_mode : Text → Result AnyError ℕ
parse_octal_mode s =
    map_err (λ e. context (codes "'" ++ (s ++ codes "' is not a valid octal mode")) (parse_int e))
      (from_str_radix (or_zero (trim_zeros s)) 8)

module _ (F : Files) where
  open F use {Disk, parent, create_dir_all, write, set_mode, chown}

  unfoldable pub create_parent : Option Text → Run Disk AnyError (Unit {0})
  create_parent none = lift (ok tt)
  create_parent (some dir) =
      wrap (λ e. context (codes "creating directory " ++ dir) (io e)) (create_dir_all dir)

  unfoldable pub write_file : Text → Bytes → Text → ℕ → ℕ → Run Disk AnyError (Unit {0})
  write_file path contents mode_str uid gid = do
    create_parent (parent path)
    wrap (λ e. context (codes "writing " ++ path) (io e)) (write path contents)
    mode ← lift (
        map_err (context (codes "parsing mode '" ++ (mode_str ++ codes "'")))
          (parse_octal_mode mode_str))
    wrap (λ e. context (codes "setting permissions on " ++ path) (io e)) (set_mode path mode)
    wrap
        (λ e.
          context
            (codes "chown "
              ++ (to_text uid ++ (codes ":" ++ (to_text gid ++ (codes " on " ++ path)))))
            (io e))
        (chown path uid gid)

  unfoldable pub store_entity_credentials :
      EntityEntry → Text → Text → Text → Run Disk AnyError (Unit {0})
  store_entity_credentials entity cert_pem key_pem ca_pem = do
    wrap (context (codes "writing cert to " ++ entity.cert_path))
        (write_file entity.cert_path cert_pem entity.cert_mode entity.owner_uid entity.owner_gid)
    wrap (context (codes "writing key to " ++ entity.key_path))
        (write_file entity.key_path key_pem entity.key_mode entity.owner_uid entity.owner_gid)
    wrap (context (codes "writing CA cert to " ++ entity.ca_path))
        (write_file entity.ca_path ca_pem entity.cert_mode entity.owner_uid entity.owner_gid)
