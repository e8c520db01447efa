-- ===== src/Evaluator/OctetString/Standard.antt =====
-- The evaluator's reader of OCTET STRINGs reads every one of DER.
use mathlib.Core.List.{append_assoc}
use mathlib.Core.Path.{ap₂}
use Prim.Native.Nat.{bit_and}
use native.Mathlib.Nat.{mod-eq_of_lt}
use vm_auth_scope.Base.{
  ℕ, ◌+◌, ◌*◌, ◌%◌, ◌^◌, ◌≤◌, ◌<◌, ◌≡◌, refl, sym, ap, ◌∙◌, some, [], ◌∷◌, ◌++◌, Bytes, length,
  take-length, get_elem?, All, nat_eq, arith, length-append,
}
use vm_auth_scope.Base.Bits.{top_bit, low_bits, bit_or_byte}
use vm_auth_scope.Base.Number.{big_endian}
use vm_auth_scope.Base.Result.{ok}
use vm_auth_scope.Ca.Der.Standard.{IsOctetString, short, long}
use vm_auth_scope.Evaluator.OctetString.{length_bytes, der_length, inner_bytes, unwrap_octet_string}
use vm_auth_scope.Evaluator.OctetString.RoundTrip.{short_form, inner_of_front}

big_endian-le : (n : ℕ) (bs : Bytes) → n ≤ big_endian n bs
unfolding big_endian
big_endian-le n [] = omega arith
big_endian-le n (b ∷ bs) = omega (arith, big_endian-le (n * 256 + b) bs)

pub get_elem?-front :
    (front : Bytes) (b : ℕ) (l : Bytes) → get_elem? (front ++ b ∷ l) (length front) ≡ some b
get_elem?-front [] b l = refl
get_elem?-front (x ∷ front) b l = get_elem?-front front b l

-- The loop reads a number that fits 64 bits.
length_bytes-big_endian :
    (bytes front bs c : Bytes) (offset len : ℕ)
    → bytes ≡ front ++ (bs ++ c)
    → length front ≡ offset
    → All (λ b. b < 256) bs
    → big_endian len bs < 2 ^ 64
    → length_bytes bytes offset (length bs) len ≡ ok (big_endian len bs)
unfolding length_bytes big_endian
length_bytes-big_endian bytes front [] c offset len e n small fits = refl
length_bytes-big_endian bytes front (b ∷ bs) c offset len e n small fits =
    let here : get_elem? bytes offset ≡ some b =
      ap (get_elem? bytes) (sym n)
      ∙ ap (λ x. get_elem? x (length front)) e
      ∙ get_elem?-front front b (bs ++ c) in
    let grown : len * 256 + b ≤ big_endian (len * 256 + b) bs = big_endian-le (len * 256 + b) bs in
    let kept : len * 256 % 2 ^ 64 ≡ len * 256 = mod-eq_of_lt (omega (arith, grown, fits)) in
    rw (here, kept, bit_or_byte len b small.0)
      (length_bytes-big_endian bytes (front ++ b ∷ []) bs c (offset + 1) (len * 256 + b)
        (e ∙ sym (append_assoc front (b ∷ []) (bs ++ c)))
        (length-append front (b ∷ []) ∙ ap (λ k. k + 1) n) small.1 fits)

-- The long form of the length field.
long_form :
    (bs c : Bytes)
    → length bs < 127
    → All (λ b. b < 256) bs
    → big_endian 0 bs < 2 ^ 64
    → der_length (0x04 ∷ (128 + length bs) ∷ (bs ++ c)) ≡ ok (big_endian 0 bs, 2 + length bs)
unfolding der_length
long_form bs c few small fits =
    let k = length bs in
    let high : bit_and (128 + k) 0x80 ≡ 128 =
      top_bit (128 + k) (omega (arith, few)) ∙ omega (arith, few) in
    let count : bit_and (128 + k) 0x7f ≡ k =
      low_bits (128 + k) (omega (arith, few)) ∙ omega (arith, few) in
    rw (high, count)
      (rw
        (length_bytes-big_endian (0x04 ∷ (128 + k) ∷ (bs ++ c)) (0x04 ∷ (128 + k) ∷ []) bs c 2 0
          refl refl small fits)
        refl)

-- The content behind a length that is its own.
pub content_read :
    (front content rest : Bytes)
    → der_length (front ++ (content ++ rest)) ≡ ok (length content, length front)
    → inner_bytes (front ++ (content ++ rest)) ≡ ok content
content_read front content rest e =
    inner_of_front front (content ++ rest) (length content) (length content) e refl
      (omega (arith, length-append content rest))
    ∙ ap ok (take-length content rest)

-- The evaluator reads the content of every OCTET STRING of DER with less than 2 ^ 64 bytes, whatever
-- is behind it.
pub unwrap_octet_string-IsOctetString :
    (value content rest : Bytes)
    → IsOctetString value content
    → length content < 2 ^ 64
    → unwrap_octet_string (value ++ rest) ≡ ok content
unfolding unwrap_octet_string
unwrap_octet_string-IsOctetString _ content rest (short few) fits =
    content_read (0x04 ∷ length content ∷ []) content rest
      (short_form (length content) (content ++ rest) few)
unwrap_octet_string-IsOctetString _ content rest (long bs few small first many whole) fits =
    ap (λ x. inner_bytes (0x04 ∷ (128 + length bs) ∷ x)) (append_assoc bs content rest)
    ∙ content_read (0x04 ∷ (128 + length bs) ∷ bs) content rest (
        long_form bs (content ++ rest) few small (omega (arith, whole, fits))
        ∙ ap₂ (λ n k. ok (n, k)) whole (omega arith))
