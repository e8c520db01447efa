-- ===== src/Io/Files.antt =====
-- The file system that `std::fs` and `std::os::unix::fs` give, as an interface, and what the
-- programs rely on.
pub mod Kept
use vm_auth_scope.Base.{ℕ, ◌<◌, ◌≡◌, Bool, Option, some, Bytes, Text}
use vm_auth_scope.Base.Result.{ok}
use vm_auth_scope.Io.{Run, IoError}

pub record Files : Type 1 where
  pub Disk : Type 0
  pub parent : Text → Option Text
  pub exists : Text → Disk → Bool
  pub read_to_string : Text → Run Disk IoError Text
  pub remove_file : Text → Run Disk IoError (Unit {0})
  pub create_dir_all : Text → Run Disk IoError (Unit {0})
  pub write : Text → Bytes → Run Disk IoError (Unit {0})
  pub set_mode : Text → ℕ → Run Disk IoError (Unit {0})
  pub chown : Text → ℕ → ℕ → Run Disk IoError (Unit {0})

-- A regular file.
pub record File : Type 0 where
  pub content : Bytes
  pub mode : ℕ
  pub uid : ℕ
  pub gid : ℕ

-- What a successful call leaves, and that no call, failed or not, touches another file. `Apart` are
-- two paths that lead to different files, whatever links there are. A change of owner may clear the
-- set-user and set-group bits, and only the nine lower bits of a mode are sure to be kept.
pub record IsFiles (F : Files) : Type 1 where
  pub entry : F.Disk → Text → Option File
  pub Apart : Text → Text → Type 0
  pub read_to_string-ok :
      (p text : Text) (s t : F.Disk)
      → F.read_to_string p s ≡ (ok text, t)
      → (f : File) × (entry s p ≡ some f) × (text ≡ f.content)
  pub read_to_string-entry :
      (p : Text) (s : F.Disk) (q : Text) → entry (F.read_to_string p s).1 q ≡ entry s q
  pub create_dir_all-entry :
      (dir : Text) (s : F.Disk) (q : Text) → entry (F.create_dir_all dir s).1 q ≡ entry s q
  pub write-ok :
      (p : Text) (b : Bytes) (s t : F.Disk)
      → F.write p b s ≡ (ok tt, t)
      → (f : File) × (entry t p ≡ some f) × (f.content ≡ b)
  pub write-Apart :
      (p q : Text) (b : Bytes) (s : F.Disk) → Apart p q → entry (F.write p b s).1 q ≡ entry s q
  pub set_mode-ok :
      (p : Text) (m : ℕ) (s t : F.Disk) (f : File)
      → F.set_mode p m s ≡ (ok tt, t)
      → entry s p ≡ some f
      → (g : File) × (entry t p ≡ some g) × (g.content ≡ f.content) × (m < 0o1000 → g.mode ≡ m)
  pub set_mode-Apart :
      (p q : Text) (m : ℕ) (s : F.Disk) → Apart p q → entry (F.set_mode p m s).1 q ≡ entry s q
  pub chown-ok :
      (p : Text) (uid gid : ℕ) (s t : F.Disk) (f : File)
      → F.chown p uid gid s ≡ (ok tt, t)
      → entry s p ≡ some f
      → (g : File) × (entry t p ≡ some g)
        × (g.content ≡ f.content)
        × (g.uid ≡ uid)
        × (g.gid ≡ gid)
        × (f.mode < 0o1000 → g.mode ≡ f.mode)
  pub chown-Apart :
      (p q : Text) (uid gid : ℕ) (s : F.Disk)
      → Apart p q
      → entry (F.chown p uid gid s).1 q ≡ entry s q
