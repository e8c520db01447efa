-- ===== src/Evaluator/OctetString/RoundTrip.antt =====
-- The evaluator's reader of OCTET STRINGs against the authority's writer.
use Prim.Native.Nat.{bit_or}
use vm_auth_scope.Base.{
  ℕ, ◌+◌, ◌*◌, ◌/◌, ◌%◌, ◌^◌, ◌≤◌, ◌<◌, ◌≡◌, ap, ◌∙◌, [], ◌∷◌, ◌++◌, Bytes, length, take,
  length-append, drop-length, take_all, ltb, Bool-cases, inl, inr, arith,
}
use native.Mathlib.Nat.{mod-eq_of_lt}
use vm_auth_scope.Base.Bits.{top_bit, bit_or_byte}
use vm_auth_scope.Base.Result.{ok}
use vm_auth_scope.Ca.Der.{encode_der_octet_string}
use vm_auth_scope.Ca.Der.Standard.{encode_short, encode_one_byte, encode_two_bytes}
use vm_auth_scope.Evaluator.OctetString.{slice, der_length, inner_bytes, unwrap_octet_string}

slice_front :
    (front data' : Bytes) (n : ℕ)
    → n ≤ length data'
    → slice (front ++ data') (length front) (length front + n) ≡ ok (take n data')
unfolding slice
slice_front front data' n h =
    rw (drop-length front data') (ground (arith, length-append front data'))

-- The three forms of the length field.
pub short_form : (n : ℕ) (rest : Bytes) → n < 128 → der_length (0x04 ∷ n ∷ rest) ≡ ok (n, 2)
unfolding der_length
short_form n rest h = ground (arith, top_bit n)

bit_or_zero_left : (n : ℕ) → n < 256 → bit_or 0 n ≡ n
bit_or_zero_left n h = bit_or_byte 0 n h ∙ omega arith

one_byte_form : (n : ℕ) (rest : Bytes) → n < 256 → der_length (0x04 ∷ 0x81 ∷ n ∷ rest) ≡ ok (n, 3)
unfolding der_length
one_byte_form n rest h = rw (bit_or_zero_left n h)

two_bytes :
    (hi lo : ℕ) → hi < 256 → lo < 256 → bit_or (bit_or 0 hi * 256 % 2 ^ 64) lo ≡ hi * 256 + lo
two_bytes hi lo hh hl =
    let small : hi * 256 % 2 ^ 64 ≡ hi * 256 = omega arith in
    rw (bit_or_zero_left hi hh, small) (bit_or_byte hi lo hl)

two_byte_form :
    (hi lo : ℕ) (rest : Bytes)
    → hi < 256
    → lo < 256
    → der_length (0x04 ∷ 0x82 ∷ hi ∷ lo ∷ rest) ≡ ok (hi * 256 + lo, 4)
unfolding der_length
two_byte_form hi lo rest hh hl = rw (two_bytes hi lo hh hl)

-- A read length and its offset select the content.
pub inner_of_front :
    (front data' : Bytes) (m n : ℕ)
    → der_length (front ++ data') ≡ ok (m, length front)
    → m ≡ n
    → n ≤ length data'
    → inner_bytes (front ++ data') ≡ ok (take n data')
unfolding inner_bytes
inner_of_front front data' m n e same h = rw e (
    ap (λ (k : ℕ). slice (front ++ data') (length front) (length front + k)) same
    ∙ slice_front front data' n h)

-- Reading back what was written gives the first `length data' % 65536` bytes of it: the length
-- field has room for 16 bits.
pub unwrap_octet_string-encode :
    (data' : Bytes)
    → unwrap_octet_string (encode_der_octet_string data') ≡ ok (take (length data' % 65536) data')
unfolding unwrap_octet_string
unwrap_octet_string-encode data' = elim (Bool-cases (ltb n 128)) [
  | inl short ↦ rw (encode_short data' (ground arith)) (
      inner_of_front (0x04 ∷ n ∷ []) data' n kept (short_form n data' (ground arith)) (ground arith)
        (omega arith))
  | inr long ↦ elim (Bool-cases (ltb n 256)) [
    | inl byte ↦ rw (encode_one_byte data' (ground arith) (ground arith)) (
        inner_of_front (0x04 ∷ 0x81 ∷ n ∷ []) data' n kept (one_byte_form n data' (ground arith))
          (ground arith) (omega arith))
    | inr bytes ↦ rw (encode_two_bytes data' (ground arith)) (
        inner_of_front (0x04 ∷ 0x82 ∷ (n / 256 % 256) ∷ (n % 256) ∷ []) data' _ kept
          (two_byte_form (n / 256 % 256) (n % 256) data' (omega arith) (omega arith)) (omega arith)
          (omega arith))
  ]
]
  where
    n : ℕ
    n = length data'

    kept : ℕ
    kept = length data' % 65536

-- A content of less than 64 KiB is read back whole.
pub unwrap_octet_string-encode_whole :
    (data' : Bytes)
    → length data' < 65536
    → unwrap_octet_string (encode_der_octet_string data') ≡ ok data'
unwrap_octet_string-encode_whole data' h =
    unwrap_octet_string-encode data'
    ∙ ap ok (ap (λ (n : ℕ). take n data') (mod-eq_of_lt h) ∙ take_all data')
