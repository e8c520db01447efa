-- ===== src/Tests/Crates.antt =====
-- Toy crates that meet the assumptions: a signature is a checksum with the key in 64 bytes, base64 writes a
-- number in unary, a leaf is the text of its one extension, and the authority's certificate its key.
use vm_auth_scope.Base.{
  ℕ, zero, suc, ◌+◌, ◌%◌, ◌≡◌, refl, sym, ap, ◌∙◌, false, none, some, List, [], ◌∷◌, ◌++◌, map,
  Bytes, Text, codes, length, take, drop, take-length, drop-length, All, text_beq, text_beq_iff,
  arith, if◌then◌else◌, nat_beq,
}
use vm_auth_scope.Base.Result.{Result, ok, err}
use vm_auth_scope.Base.Result.Laws.{ok_injective}
use vm_auth_scope.Ca.Error.{RcgenError}
use vm_auth_scope.Ca.Pki.{Pki, Params, CsrParams, CustomExtension}
use vm_auth_scope.Ca.Tokens.{Tokens, IsTokens, IsUrlSafe}
use vm_auth_scope.Evaluator.Certificate.Vouched.{Holds}
use vm_auth_scope.Evaluator.EndToEnd.{IsStandard, shown, IsReadable}
use vm_auth_scope.Evaluator.X509.{Extension, X509Certificate, X509}
use vm_auth_scope.Proto.Caps.{CapClaim}
use vm_auth_scope.Proto.Json.{Json, IsJson}

unfoldable pub sum : Bytes → ℕ
sum [] = 0
sum (b ∷ s) = b + sum s

unfoldable pub unary : ℕ → Text → Text
unary zero rest = b'B' ∷ rest
unary (suc n) rest = b'A' ∷ unary n rest

unfoldable pub write : Bytes → Text
write [] = []
write (n ∷ b) = unary n (write b)

unfoldable pub raise : Result Text Bytes → Result Text Bytes
raise (ok (n ∷ b)) = ok (suc n ∷ b)
raise _ = err (codes "cut")

unfoldable pub begin : Result Text Bytes → Result Text Bytes
begin (ok b) = ok (0 ∷ b)
begin r = r

unfoldable pub read : Text → Result Text Bytes
read [] = ok []
read (c ∷ s) = let rest = read s in if nat_beq c b'B' then begin rest else raise rest

read-unary : (n : ℕ) (rest : Text) (b : Bytes) → read rest ≡ ok b → read (unary n rest) ≡ ok (n ∷ b)
unfolding read raise begin unary
read-unary zero rest b h = rw h
read-unary (suc n) rest b h = rw (read-unary n rest b h)

pub read-write : (b : Bytes) → read (write b) ≡ ok b
unfolding write
read-write [] = unfold read in refl
read-write (n ∷ b) = read-unary n (write b) b (read-write b)

unary-IsUrlSafe : (n : ℕ) (rest : Text) → All IsUrlSafe rest → All IsUrlSafe (unary n rest)
unfolding unary
unary-IsUrlSafe zero rest h = (omega arith, h)
unary-IsUrlSafe (suc n) rest h = (omega arith, unary-IsUrlSafe n rest h)

-- The first bytes, and zeros behind them.
unfoldable pub fit : ℕ → Bytes → Bytes
fit zero b = []
fit (suc n) [] = 0 ∷ fit n []
fit (suc n) (c ∷ b) = c ∷ fit n b

pub length-fit : (n : ℕ) (b : Bytes) → length (fit n b) ≡ n
unfolding fit
length-fit zero b = refl
length-fit (suc n) [] = ap suc (length-fit n [])
length-fit (suc n) (c ∷ b) = ap suc (length-fit n b)

abbrev pub signature : Bytes → Bytes → Bytes
signature k m = (sum m % 16) ∷ fit 63 k

pub write-IsUrlSafe : (b : Bytes) → All IsUrlSafe (write b)
unfolding write
write-IsUrlSafe [] = tt
write-IsUrlSafe (n ∷ b) = unary-IsUrlSafe n (write b) (write-IsUrlSafe b)

module _ (J : Json CapClaim) where
  abbrev pub tokens : Tokens
  tokens = record {
    EcdsaKeyPair = Bytes;
    Draw = Unit {0};
    from_pkcs8 = λ der. ok der;
    sign = λ k d m. ok (signature k m);
    verify = λ pk m s. text_beq s (signature pk m);
    encode = write;
    decode = read;
    claim_json = J;
  }

  abbrev pub tokens-IsTokens : IsJson J → IsTokens tokens
  tokens-IsTokens I = record {
    public_key = λ k. k;
    verify-sign = λ k d m s h. (text_beq_iff _ _).1 (sym (ok_injective h));
    decode-encode = read-write;
    encode-IsUrlSafe = write-IsUrlSafe;
    claim_json-IsJson = I;
  }

abbrev pub blank : Params ℕ (Unit {0})
blank = record {
  distinguished_name = [];
  is_ca = false;
  key_usages = [];
  custom_extensions = [];
  not_before = 0;
  not_after = 0;
  other = tt;
}

abbrev pub no_extension : RcgenError
no_extension = record { shown = codes "one extension is wanted" }

abbrev pub leaf_text : List CustomExtension → Result RcgenError Text
leaf_text (ext ∷ []) = ok (suc (length ext.oid) ∷ (ext.oid ++ ext.content))
leaf_text _ = err no_extension

abbrev pub read_leaf : Text → Result Text X509Certificate
read_leaf [] = err (codes "no certificate")
read_leaf (zero ∷ key) = ok (record { subject_public_key = key; extensions = [] })
read_leaf (suc n ∷ rest) = ok (record {
  subject_public_key = codes "leaf key";
  extensions = record { oid = some (take n rest); value = drop n rest } ∷ [];
})

abbrev pub pki : Pki
pki = record {
  Date = ℕ;
  Other = Unit {0};
  PublicKey = Text;
  KeyPair = Text;
  Certificate = Text;
  Csr = Text;
  Draw = Unit {0};
  date_time_ymd = λ y m d. if nat_beq y 10000 then none else some y;
  default_params = blank;
  generate_for = λ d. ok (codes "fresh key");
  key_from_pem = λ t. ok t;
  serialize_pem = λ k. k;
  serialize_der = λ k. k;
  csr_from_pem = λ t. ok (record { params = blank; public_key = t });
  from_ca_cert_pem = λ t. ok blank;
  self_signed = λ p k d. ok (0 ∷ k);
  signed_by = λ c i k d. leaf_text c.params.custom_extensions;
  cert_pem = λ c. c;
  cert_der = λ c. c;
  serialize_request = λ p k d. ok k;
  csr_pem = λ t. ok t;
}

abbrev pub x509 : X509
x509 = record { parse_x509_pem = λ t. ok t; parse_x509_certificate = read_leaf }

leaf_parsed :
    (exts : List CustomExtension) (leaf : Text)
    → leaf_text exts ≡ ok leaf
    → (cert : X509Certificate) × (front back : List Extension) × Holds x509 leaf cert
      × All IsStandard front
      × (cert.extensions ≡ front ++ (map shown exts ++ back))
leaf_parsed [] leaf h = absurd (cc h)
leaf_parsed (ext ∷ []) leaf h = (
  record { subject_public_key = codes "leaf key"; extensions = shown ext ∷ [] },
  [],
  [],
  record {
    contents = leaf;
    pem_parsed = refl;
    cert_parsed =
        ap read_leaf (sym (ok_injective h)) ∙ (rw (take-length ext.oid, drop-length ext.oid));
  },
  tt,
  refl,
)
leaf_parsed (ext ∷ ext' ∷ exts) leaf h = absurd (cc h)

-- The two toy crates fit together.
pub pki-IsReadable : IsReadable pki x509
pki-IsReadable = record {
  csr_custom = λ pem csr h.
      ap (λ (c : CsrParams ℕ (Unit {0}) Text). c.params.custom_extensions) (sym (ok_injective h));
  signed_parsed = λ csr issuer leaf key draw h. leaf_parsed csr.params.custom_extensions leaf h;
}
