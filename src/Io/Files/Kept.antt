-- ===== src/Io/Files/Kept.antt =====
-- The calls that change one path, for the files under the others.
use vm_auth_scope.Base.{ℕ, Bytes, Text}
use vm_auth_scope.Io.Files.{Files, IsFiles}
use vm_auth_scope.Io.Laws.{Keeps, keeping}

module _ (F : Files) (L : IsFiles F) {q : Text} where
  open L use {entry, Apart}

  pub create_dir_all-Keeps : (dir : Text) → Keeps (λ d. entry d q) (F.create_dir_all dir)
  create_dir_all-Keeps dir = record { keeps = λ s. L.create_dir_all-entry dir s q }

  pub read_to_string-Keeps : (p : Text) → Keeps (λ d. entry d q) (F.read_to_string p)
  read_to_string-Keeps p = record { keeps = λ s. L.read_to_string-entry p s q }

  module _ {p : Text} where
    pub write-Keeps : (b : Bytes) → Apart p q → Keeps (λ d. entry d q) (F.write p b)
    write-Keeps b apart = record { keeps = λ s. L.write-Apart p q b s apart }

    pub set_mode-Keeps : (m : ℕ) → Apart p q → Keeps (λ d. entry d q) (F.set_mode p m)
    set_mode-Keeps m apart = record { keeps = λ s. L.set_mode-Apart p q m s apart }

    pub chown-Keeps : (uid gid : ℕ) → Apart p q → Keeps (λ d. entry d q) (F.chown p uid gid)
    chown-Keeps uid gid apart = record { keeps = λ s. L.chown-Apart p q uid gid s apart }

pub ruleset file_keeping =
    (keeping, create_dir_all-Keeps, read_to_string-Keeps, write-Keeps, set_mode-Keeps, chown-Keeps)
