-- ===== src/Io/Memory.antt =====
-- A disk in memory: a file system that meets the assumptions of `Io/Files.antt`.
use mathlib.Core.Option.{get_or}
use vm_auth_scope.Base.{
  ◌≡◌, ◌≢◌, refl, sym, ap, ◌∙◌, true, false, Bool-cases, inl, inr, Option, none, some, [], Text,
  text_beq, text_beq_iff, if◌then◌else◌, arith,
}
use vm_auth_scope.Base.Result.{Result, ok, err}
use vm_auth_scope.Io.{Run, IoError, other}
use vm_auth_scope.Io.Files.{Files, File, IsFiles}

abbrev pub Disk : Type 0
Disk = Text → Option File

unfoldable pub put : Text → File → Disk → Disk
put p f d q = if text_beq q p then some f else d q

pub put_same : (p : Text) (f : File) (d : Disk) → put p f d p ≡ some f
unfolding put
put_same p f d = rw ((text_beq_iff p p).1 refl)

pub put_Apart : (p q : Text) (f : File) (d : Disk) → q ≢ p → put p f d q ≡ d q
unfolding put
put_Apart p q f d differ = elim (Bool-cases (text_beq q p)) [
  | inl same ↦ absurd (differ ((text_beq_iff q p).0 same))
  | inr fails ↦ rw fails
]

abbrev pub missing : IoError
missing = record { kind = other; shown = [] }

abbrev pub fresh : File
fresh = record { content = []; mode = 0o644; uid = 0; gid = 0 }

-- A change of a file that is there.
unfoldable pub change : Text → (File → File) → Disk → Result IoError (Unit {0}) × Disk
change p f d = elim (d p) [ none ↦ (err missing, d) | some file ↦ (ok tt, put p (f file) d) ]

unfoldable pub read_text : Text → Run Disk IoError Text
read_text p d = elim (d p) [ none ↦ (err missing, d) | some file ↦ (ok file.content, d) ]

abbrev pub memory : Files
memory = record {
  Disk = Disk;
  parent = λ p. none;
  exists = λ p d. elim (d p) [ none ↦ false | some _ ↦ true ];
  read_to_string = read_text;
  remove_file = λ p d. (ok tt, λ q. if text_beq q p then none else d q);
  create_dir_all = λ p d. (ok tt, d);
  write = λ p b d. (ok tt, put p (record (get_or (d p) fresh) { content = b }) d);
  set_mode = λ p m. change p (λ f. record f { mode = m });
  chown = λ p u g. change p (λ f. record f { uid = u; gid = g });
}

pub change-ok :
    (p : Text) (f : File → File) (s t : Disk) (file : File)
    → change p f s ≡ (ok tt, t)
    → s p ≡ some file
    → t p ≡ some (f file)
unfolding change
change-ok p f s t file h held =
    sym (ap (λ (r : Result IoError (Unit {0}) × Disk). r.1 p) (rw (held, change) at h))
    ∙ put_same p (f file) s

pub change-Apart : (p q : Text) (f : File → File) (s : Disk) → q ≢ p → (change p f s).1 q ≡ s q
unfolding change
change-Apart p q f s differ = kept (s p) refl
  where
    kept : (o : Option File) → s p ≡ o → (change p f s).1 q ≡ s q
    kept none e = rw (e, change)
    kept (some file) e = rw (e, change) (put_Apart p q (f file) s differ)

pub read_text-ok :
    (p text : Text) (s t : Disk) (o : Option File)
    → s p ≡ o
    → read_text p s ≡ (ok text, t)
    → (f : File) × (s p ≡ some f) × (text ≡ f.content)
unfolding read_text
read_text-ok p text s t none e h =
    absurd (cc (ap (λ (r : Result IoError Text × Disk). r.0) (rw (e, read_text) at h)))
read_text-ok p text s t (some f) e h =
    let got = ap (λ (r : Result IoError Text × Disk). r.0) (rw (e, read_text) at h) in
    (f, e, ground (arith, got))

pub read_text-kept : (p : Text) (s : Disk) (o : Option File) → s p ≡ o → (read_text p s).1 ≡ s
unfolding read_text
read_text-kept p s none e = rw (e, read_text)
read_text-kept p s (some f) e = rw (e, read_text)

abbrev pub memory-IsFiles : IsFiles memory
memory-IsFiles = record {
  entry = λ d p. d p;
  Apart = λ p q. q ≢ p;
  read_to_string-ok = λ p text s t h. read_text-ok p text s t (s p) refl h;
  read_to_string-entry = λ p s q. ap (λ (d : Disk). d q) (read_text-kept p s (s p) refl);
  create_dir_all-entry = λ dir s q. refl;
  write-ok = λ p b s t h. (
    record (get_or (s p) fresh) { content = b },
    sym (ap (λ (r : Result IoError (Unit {0}) × Disk). r.1 p) h) ∙ put_same p _ s,
    refl,
  );
  write-Apart = λ p q b s differ. put_Apart p q _ s differ;
  set_mode-ok =
      λ p m s t f h held. (record f { mode = m }, change-ok p _ s t f h held, refl, λ _. refl);
  set_mode-Apart = λ p q m s differ. change-Apart p q _ s differ;
  chown-ok = λ p u g s t f h held.
      (record f { uid = u; gid = g }, change-ok p _ s t f h held, refl, refl, refl, λ _. refl);
  chown-Apart = λ p q u g s differ. change-Apart p q _ s differ;
}
