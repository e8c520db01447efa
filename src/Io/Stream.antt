-- ===== src/Io/Stream.antt =====
-- The byte stream that `tokio` gives (`AsyncReadExt`, `AsyncWriteExt`), as an interface, and what
-- the program relies on. A connected pipe in memory shows that it can hold.
use vm_auth_scope.Base.{ℕ, ◌≤◌, ◌≡◌, ◌++◌, Bytes, length}
use vm_auth_scope.Base.Result.{ok}
use vm_auth_scope.Io.{Run, IoError}

pub record Stream : Type 1 where
  pub State : Type 0
  pub read_exact : ℕ → Run State IoError Bytes
  pub write_all : Bytes → Run State IoError (Unit {0})
  pub flush : Run State IoError (Unit {0})

-- What is still to be read and what was sent, and how the calls move both. A failed read may have
-- taken some bytes, and a failed write may have sent some of them.
pub record IsStream (T : Stream) : Type 0 where
  pub unread : T.State → Bytes
  pub sent : T.State → Bytes
  pub read_exact-ok :
      (n : ℕ) (s : T.State) (b : Bytes) (t : T.State)
      → T.read_exact n s ≡ (ok b, t)
      → (length b ≡ n) × (unread s ≡ b ++ unread t)
  pub read_exact-unread :
      (n : ℕ) (s : T.State)
      → (taken : Bytes) × (unread s ≡ taken ++ unread (T.read_exact n s).1) × (length taken ≤ n)
  pub read_exact-sent : (n : ℕ) (s : T.State) → sent (T.read_exact n s).1 ≡ sent s
  pub write_all-ok :
      (b : Bytes) (s t : T.State) → T.write_all b s ≡ (ok tt, t) → sent t ≡ sent s ++ b
  pub write_all-sent :
      (b : Bytes) (s : T.State)
      → (p : Bytes) × (q : Bytes) × (b ≡ p ++ q) × (sent (T.write_all b s).1 ≡ sent s ++ p)
  pub write_all-unread : (b : Bytes) (s : T.State) → unread (T.write_all b s).1 ≡ unread s
  pub flush-sent : (s : T.State) → sent (T.flush s).1 ≡ sent s
  pub flush-unread : (s : T.State) → unread (T.flush s).1 ≡ unread s

-- A connection that stays up: reads that have their bytes, and all writes, succeed.
pub record IsLive (T : Stream) (L : IsStream T) : Type 1 where
  pub Up : T.State → Type 0
  pub read_live :
      (n : ℕ) (s : T.State)
      → Up s
      → n ≤ length (L.unread s)
      → (b : Bytes) × (t : T.State) × (T.read_exact n s ≡ (ok b, t)) × Up t
  pub write_live :
      (b : Bytes) (s : T.State) → Up s → (t : T.State) × (T.write_all b s ≡ (ok tt, t)) × Up t
  pub flush_live : (s : T.State) → Up s → (t : T.State) × (T.flush s ≡ (ok tt, t)) × Up t
