-- ===== src/Evaluator/OctetString/Length.antt =====
-- The length field of an OCTET STRING, as the evaluator reads it.
use mathlib.Core.List.{append_assoc, append-nil}
use mathlib.Core.Path.{ap₂}
use Prim.Native.Nat.{bit_and, bit_or}
use native.Mathlib.Nat.{mod-eq_of_lt}
use vm_auth_scope.Base.{
  ℕ, zero, suc, ◌+◌, ◌-◌, ◌*◌, ◌%◌, ◌^◌, ◌<◌, ◌≡◌, ◌⊎◌, inl, inr, refl, sym, ap, ◌∙◌, none, some,
  [], ◌∷◌, ◌++◌, Bytes, length, get_elem?, All, ltb, Bool-cases, nat_eq, arith, length-append,
}
use vm_auth_scope.Base.Bits.{top_bit, low_bits, bit_or_byte}
use vm_auth_scope.Base.Number.{big_endian}
use vm_auth_scope.Base.Result.{ok, panic, ◌>>=◌, expect}
use vm_auth_scope.Evaluator.OctetString.{length_bytes, der_length}
use vm_auth_scope.Evaluator.OctetString.RoundTrip.{short_form}
use vm_auth_scope.Evaluator.OctetString.Standard.{get_elem?-front}

-- A length field as it is read: one byte below 128, or the number of the bytes that follow, of which
-- the 64 low bits count. Leading zeros are taken.
pub data IsLength : Bytes → ℕ → Type 0 where
  short : {n : ℕ} → n < 128 → IsLength (n ∷ []) n
  long :
      (bs : Bytes) → length bs < 128 → IsLength ((128 + length bs) ∷ bs) (big_endian 0 bs % 2 ^ 64)

same_low :
    (x y : ℕ) (bs : Bytes)
    → x % 2 ^ 64 ≡ y % 2 ^ 64
    → big_endian x bs % 2 ^ 64 ≡ big_endian y bs % 2 ^ 64
unfolding big_endian
same_low x y [] h = h
same_low x y (b ∷ bs) h = same_low (x * 256 + b) (y * 256 + b) bs (omega (arith, h))

shifted : (len b : ℕ) → b < 256 → bit_or (len * 256 % 2 ^ 64) b ≡ (len * 256 + b) % 2 ^ 64
shifted len b h =
    let low : len * 256 % 2 ^ 64 ≡ (len % 2 ^ 56) * 256 = omega arith in
    rw low (bit_or_byte (len % 2 ^ 56) b h ∙ omega (arith, h))

get_elem?-end : (l : Bytes) → get_elem? l (length l) ≡ none
get_elem?-end [] = refl
get_elem?-end (x ∷ l) = get_elem?-end l

at_front :
    (bytes front l : Bytes) (b offset : ℕ)
    → bytes ≡ front ++ b ∷ l
    → length front ≡ offset
    → get_elem? bytes offset ≡ some b
at_front bytes front l b offset e n =
    ap (get_elem? bytes) (sym n)
    ∙ ap (λ x. get_elem? x (length front)) e
    ∙ get_elem?-front front b l

-- The loop over the bytes of the length.
length_bytes-low :
    (bytes front bs c : Bytes) (offset len : ℕ)
    → bytes ≡ front ++ (bs ++ c)
    → length front ≡ offset
    → All (λ b. b < 256) bs
    → len < 2 ^ 64
    → length_bytes bytes offset (length bs) len ≡ ok (big_endian len bs % 2 ^ 64)
unfolding length_bytes big_endian
length_bytes-low bytes front [] c offset len e n small fits = ap ok (sym (mod-eq_of_lt fits))
length_bytes-low bytes front (b ∷ bs) c offset len e n small fits =
    let next : ℕ = (len * 256 + b) % 2 ^ 64 in
    rw (at_front bytes front (bs ++ c) b offset e n, shifted len b small.0)
      (length_bytes-low bytes (front ++ b ∷ []) bs c (offset + 1) next
          (e ∙ sym (append_assoc front (b ∷ []) (bs ++ c)))
          (length-append front (b ∷ []) ∙ ap (λ k. k + 1) n) small.1 (omega arith)
        ∙ ap ok (same_low next (len * 256 + b) bs (omega arith)))

-- Too few bytes for the loop.
length_bytes-panic :
    (bytes front l : Bytes) (offset k len : ℕ)
    → bytes ≡ front ++ l
    → length front ≡ offset
    → length l < k
    → length_bytes bytes offset k len ≡ panic
unfolding length_bytes ◌>>=◌ expect
length_bytes-panic bytes front l offset zero len e n few = absurd (omega (arith, few))
length_bytes-panic bytes front [] offset (suc k) len e n few =
    let ends : get_elem? bytes offset ≡ none =
      ap (get_elem? bytes) (sym n)
      ∙ ap (λ x. get_elem? x (length front)) (e ∙ append-nil front)
      ∙ get_elem?-end front in
    rw ends
length_bytes-panic bytes front (b ∷ l) offset (suc k) len e n few =
    rw (at_front bytes front l b offset e n) (
      length_bytes-panic bytes (front ++ b ∷ []) l (offset + 1) k _
        (e ∙ sym (append_assoc front (b ∷ []) l)) (length-append front (b ∷ []) ∙ ap (λ k. k + 1) n)
        (omega (arith, few)))

-- A list is long enough to be cut, or not.
pub split_at :
    (k : ℕ) (l : Bytes) → ((bs c : Bytes) × (l ≡ bs ++ c) × (length bs ≡ k)) ⊎ (length l < k)
split_at zero l = inl ([], l, refl, refl)
split_at (suc k) [] = inr (omega arith)
split_at (suc k) (b ∷ l) = elim (split_at k l) [
  | inl (bs, c, e, n) ↦ inl (b ∷ bs, c, ap (λ x. b ∷ x) e, ap suc n)
  | inr few ↦ inr (omega (arith, few))
]

module _ (k : ℕ) (few : k < 128) where
  high : bit_and (128 + k) 0x80 ≡ 128
  high = top_bit (128 + k) (omega (arith, few)) ∙ omega (arith, few)

  count : bit_and (128 + k) 0x7f ≡ k
  count = low_bits (128 + k) (omega (arith, few)) ∙ omega (arith, few)

-- The length field is read, and what is behind it is not looked at.
pub der_length_of_IsLength :
    (field : Bytes) (len : ℕ) (c : Bytes)
    → IsLength field len
    → All (λ b. b < 256) field
    → der_length (0x04 ∷ (field ++ c)) ≡ ok (len, suc (length field))
unfolding der_length ◌>>=◌ expect
der_length_of_IsLength _ _ c (short {n} few) small = short_form n c few
der_length_of_IsLength _ _ c (long bs few) small =
    rw (high (length bs) few, count (length bs) few)
      (rw
        (length_bytes-low (0x04 ∷ (128 + length bs) ∷ (bs ++ c)) (0x04 ∷ (128 + length bs) ∷ []) bs
          c 2 0 refl refl small.1 (omega arith))
        (ap (λ k. ok (big_endian 0 bs % 2 ^ 64, k)) (omega arith)))

-- Too few bytes for the length.
der_length_cut :
    (k : ℕ) (l : Bytes) → k < 128 → length l < k → der_length (0x04 ∷ (128 + k) ∷ l) ≡ panic
unfolding der_length ◌>>=◌ expect
der_length_cut k l few cut =
    rw (high k few, count k few)
      (rw (length_bytes-panic (0x04 ∷ (128 + k) ∷ l) (0x04 ∷ (128 + k) ∷ []) l 2 k 0 refl refl cut)
        refl)

-- A length field stands behind the tag, or the reader runs past the end.
pub measured_or_cut :
    (l : Bytes)
    → All (λ b. b < 256) l
    → ((field back : Bytes) × (len : ℕ) × (l ≡ field ++ back) × IsLength field len)
      ⊎ (der_length (0x04 ∷ l) ≡ panic)
unfolding der_length ◌>>=◌ expect
measured_or_cut [] small = inr refl
measured_or_cut (n ∷ r) small = elim (Bool-cases (ltb n 128)) [
  | inl low ↦ inl (n ∷ [], r, n, refl, short (ground arith))
  | inr top ↦
      let k : ℕ = n - 128 in
      let same : n ≡ 128 + k = ground arith in
      let few : k < 128 = omega (arith, small.0) in
      elim (split_at k r) [
        | inl (bs, c, e, m) ↦ inl (
          (128 + length bs) ∷ bs,
          c,
          big_endian 0 bs % 2 ^ 64,
          ap₂ (λ x y. x ∷ y) (omega (arith, same, m)) e,
          long bs (omega (arith, m, few)),
        )
        | inr cut ↦ inr (ap (λ x. der_length (0x04 ∷ x ∷ r)) same ∙ der_length_cut k r few cut)
      ]
]
