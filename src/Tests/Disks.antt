-- ===== src/Tests/Disks.antt =====
-- The agent's files and the authority's at concrete inputs, on a disk in memory.
use vm_auth_scope.Base.{
  ◌≡◌, ◌≢◌, refl, false, none, List, [], ◌∷◌, Bytes, Text, codes, text_beq, text_beq_iff, arith,
}
use vm_auth_scope.Agent.Config.{EntityEntry}
use vm_auth_scope.Agent.Store.{
  trim_zeros, parse_octal_mode, create_parent, write_file, store_entity_credentials,
}
use vm_auth_scope.Agent.Store.Mode.{zeros_onto, parse_octal_mode-to_radix}
use vm_auth_scope.Agent.Store.Stored.{IsStored, store_entity_credentials-IsStored}
use vm_auth_scope.Base.Number.{to_radix, from_str_radix}
use vm_auth_scope.Base.Result.{Result, ok, map_err, expect}
use vm_auth_scope.Ca.Authority.{CertificateAuthority}
use vm_auth_scope.Ca.Storage as Storage
use vm_auth_scope.Ca.Storage.{load, init, generate, save, set_mode_600, remove_if_there}
use vm_auth_scope.Ca.Storage.Reload.{IsReadBack, IsSaved, init-IsSaved, load-init}
use vm_auth_scope.Io.{IoError, ◌>>=◌, follow, lift, wrap}
use vm_auth_scope.Io.Memory.{Disk, put, change, read_text, memory, memory-IsFiles}
use vm_auth_scope.Tests.Crates.{pki}

parse_octal_mode-to_radix_example : parse_octal_mode (zeros_onto 1 (to_radix 8 0o640)) ≡ ok 0o640
parse_octal_mode-to_radix_example = parse_octal_mode-to_radix 1 0o640 (omega arith)

abbrev pub blank_disk : Disk
blank_disk p = none

abbrev pub svc : EntityEntry
svc = record {
  name = codes "svc";
  cert_path = codes "cert";
  key_path = codes "key";
  ca_path = codes "ca";
  owner_uid = 1;
  owner_gid = 2;
  cert_mode = codes "0640";
  key_mode = codes "0600";
}

abbrev stored_disk : Disk
stored_disk = (store_entity_credentials memory svc (codes "C") (codes "K") (codes "A") blank_disk).1

pub differ : {s t : Text} → text_beq s t ≡ false → s ≢ t
differ {s} {t} no_match same = absurd (cc (no_match, (text_beq_iff s t).1 same))

stored :
    store_entity_credentials memory svc (codes "C") (codes "K") (codes "A") blank_disk
    ≡ (ok tt, stored_disk)
unfolding store_entity_credentials write_file create_parent parse_octal_mode trim_zeros
    from_str_radix put change ◌>>=◌ follow lift wrap map_err text_beq
stored = refl

store_entity_credentials-IsStored_example :
    IsStored memory memory-IsFiles stored_disk (codes "cert") (codes "C") (codes "0640") 1 2
    × IsStored memory memory-IsFiles stored_disk (codes "key") (codes "K") (codes "0600") 1 2
    × IsStored memory memory-IsFiles stored_disk (codes "ca") (codes "A") (codes "0640") 1 2
store_entity_credentials-IsStored_example =
    store_entity_credentials-IsStored memory memory-IsFiles svc (codes "C") (codes "K") (codes "A")
      blank_disk stored_disk (unfold text_beq in differ refl) (unfold text_beq in differ refl)
      (unfold text_beq in differ refl) stored

abbrev pub blocks : Text → List (Result IoError Bytes)
blocks t = ok t ∷ []

blocks-IsReadBack : IsReadBack pki blocks
blocks-IsReadBack = record {
  key_from_pem-serialize_pem = λ k. (k, refl, refl);
  certs-cert_pem = λ c. refl;
}

abbrev pub new_ca : CertificateAuthority
new_ca = record {
  key_pem = codes "fresh key";
  cert_pem = 0 ∷ codes "fresh key";
  cert_der = 0 ∷ codes "fresh key";
  key_der = codes "fresh key";
}

abbrev pub ca_disk : Disk
ca_disk = (init memory pki blocks (codes "cert") (codes "key") false tt tt blank_disk).1

pub initialised :
    init memory pki blocks (codes "cert") (codes "key") false tt tt blank_disk
    ≡ (ok new_ca, ca_disk)
unfolding init generate save set_mode_600 remove_if_there Storage.create_parent put change ◌>>=◌
    follow lift wrap map_err expect text_beq
initialised = refl

init-IsSaved_example :
    IsSaved memory memory-IsFiles pki blocks (codes "cert") (codes "key") new_ca ca_disk
init-IsSaved_example =
    init-IsSaved memory memory-IsFiles pki blocks (codes "cert") (codes "key") tt tt new_ca
      blank_disk ca_disk (unfold text_beq in differ refl) initialised

cert_read : read_text (codes "cert") ca_disk ≡ (ok new_ca.cert_pem, ca_disk)
unfolding read_text init generate save set_mode_600 remove_if_there Storage.create_parent put change
    ◌>>=◌ follow lift wrap map_err expect text_beq
cert_read = refl

key_read : read_text (codes "key") ca_disk ≡ (ok (codes "fresh key"), ca_disk)
unfolding read_text init generate save set_mode_600 remove_if_there Storage.create_parent put change
    ◌>>=◌ follow lift wrap map_err expect text_beq
key_read = refl

load-init_example :
    load memory pki blocks (codes "cert") (codes "key") ca_disk ≡ (ok new_ca, ca_disk)
load-init_example =
    load-init memory memory-IsFiles pki blocks (codes "cert") (codes "key") new_ca.cert_pem
      (codes "fresh key") tt tt new_ca blank_disk ca_disk ca_disk ca_disk blocks-IsReadBack
      (unfold text_beq in differ refl) initialised cert_read key_read
