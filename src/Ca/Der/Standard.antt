-- ===== src/Ca/Der/Standard.antt =====
-- OCTET STRINGs as DER has them, and that the authority writes one.
use vm_auth_scope.Base.{
  ℕ, ◌+◌, ◌/◌, ◌%◌, ◌≤◌, ◌<◌, ◌≡◌, ◌≢◌, sym, [], ◌∷◌, ◌++◌, Bytes, length, All, ltb, Bool-cases,
  inl, inr, arith,
}
use mathlib.Core.Path.{subst}
use vm_auth_scope.Base.Bits.{bit_and_byte}
use vm_auth_scope.Base.Number.{big_endian}
use vm_auth_scope.Ca.Der.{encode_der_octet_string}

-- A length below 128 is one byte. A greater one is a big-endian number without leading zeros, behind
-- a byte with the number of its bytes.
pub data IsOctetString : Bytes → Bytes → Type 0 where
  short :
      {content : Bytes}
      → length content < 128
      → IsOctetString (0x04 ∷ length content ∷ content) content
  long :
      (bs : Bytes) {content : Bytes}
      → length bs < 127
      → All (λ b. b < 256) bs
      → ((rest : Bytes) → bs ≢ 0 ∷ rest)
      → 128 ≤ length content
      → big_endian 0 bs ≡ length content
      → IsOctetString (0x04 ∷ (128 + length bs) ∷ (bs ++ content)) content

leads : {b : ℕ} {bs : Bytes} (rest : Bytes) → 0 < b → b ∷ bs ≢ 0 ∷ rest
leads {b} rest h e = let z : b ≡ 0 = cc e in omega (arith, h, z)

-- What is written in front of the content, by the content's length.
module _ (data' : Bytes) where
  pub encode_short :
      length data' < 128 → encode_der_octet_string data' ≡ 0x04 ∷ length data' ∷ data'
  unfolding encode_der_octet_string
  encode_short h = ground arith

  pub encode_one_byte :
      128 ≤ length data'
      → length data' < 256
      → encode_der_octet_string data' ≡ 0x04 ∷ 0x81 ∷ length data' ∷ data'
  unfolding encode_der_octet_string
  encode_one_byte lo hi = ground arith

  pub encode_two_bytes :
      256 ≤ length data'
      → encode_der_octet_string data'
        ≡ 0x04 ∷ 0x82 ∷ (length data' / 256 % 256) ∷ (length data' % 256) ∷ data'
  unfolding encode_der_octet_string
  encode_two_bytes h = ground (arith, bit_and_byte (length data'))

  -- A content of less than 64 KiB is written as DER has it.
  pub encode_der_octet_string-IsOctetString :
      length data' < 65536 → IsOctetString (encode_der_octet_string data') data'
  unfolding big_endian
  encode_der_octet_string-IsOctetString h = elim (Bool-cases (ltb (length data') 128)) [
    | inl few ↦
        let below : length data' < 128 = ground arith in
        subst (λ v. IsOctetString v data') (sym (encode_short below)) (short below)
    | inr many ↦ elim (Bool-cases (ltb (length data') 256)) [
      | inl byte ↦
          let above : 128 ≤ length data' = ground arith in
          let below : length data' < 256 = ground arith in
          subst (λ v. IsOctetString v data') (sym (encode_one_byte above below))
            (long (length data' ∷ []) (omega arith) (below, tt)
              (λ rest. leads rest (omega (arith, above))) above (omega arith))
      | inr bytes ↦
          let above : 256 ≤ length data' = ground arith in
          subst (λ v. IsOctetString v data') (sym (encode_two_bytes above))
            (long ((length data' / 256 % 256) ∷ (length data' % 256) ∷ []) (omega arith)
              (omega arith, (omega arith, tt)) (λ rest. leads rest (omega (arith, above, h)))
              (omega (arith, above)) (omega (arith, above, h)))
    ]
  ]
