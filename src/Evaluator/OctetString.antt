-- ===== src/Evaluator/OctetString.antt =====
-- The unwrapping of the extension value in `Evaluator::from_cert_pem`. Indexing and slicing out of
-- range panics.
pub mod RoundTrip
pub mod Standard
pub mod Length
pub mod Exact
use Prim.Native.Nat.{bit_and, bit_or}
use vm_auth_scope.Base.{
  ℕ, zero, suc, ◌+◌, ◌-◌, ◌*◌, ◌%◌, ◌^◌, Bool, ◌&&◌, List, [], ◌∷◌, Bytes, Text, codes, length,
  take, drop, get_elem?, leb, ◌==◌, nat_eq, if◌then◌else◌,
}
use vm_auth_scope.Base.Result.{Result, ok, err, panic, ◌>>=◌, expect}
use vm_auth_scope.Evaluator.Error.{EvalError, x509_parse}

-- `bytes[i]`
abbrev index : Bytes → ℕ → Result EvalError ℕ
index bytes i = expect (get_elem? bytes i)

-- `&bytes[lo..hi]`
unfoldable pub slice : Bytes → ℕ → ℕ → Result EvalError Bytes
slice bytes lo hi =
    if leb lo hi && leb hi (length bytes) then ok (take (hi - lo) (drop lo bytes)) else panic

-- The loop over the length bytes; `<<` drops what passes the 64 bits of a `usize`.
unfoldable pub length_bytes : Bytes → ℕ → ℕ → ℕ → Result EvalError ℕ
unfolding ◌>>=◌ expect
length_bytes bytes offset zero len = ok len
length_bytes bytes offset (suc left) len = do
  b ← index bytes offset
  length_bytes bytes (offset + 1) left (bit_or (len * 2 ^ 8 % 2 ^ 64) b)

-- The length and the offset behind it.
unfoldable pub der_length : Bytes → Result EvalError (ℕ × ℕ)
unfolding length_bytes ◌>>=◌ expect
der_length bytes = do
  len_byte ← index bytes 1
  if bit_and len_byte 0x80 == 0 then ok (len_byte, 2) else do
    let num_bytes = bit_and len_byte 0x7f
    len ← length_bytes bytes 2 num_bytes 0
    ok (len, 2 + num_bytes)

-- Where the end passes 2 ^ 64, the release build wraps it below the offset and the slice panics,
-- and the debug build panics at the sum: the same outcome as here, with the true sum.
unfoldable pub inner_bytes : Bytes → Result EvalError Bytes
unfolding ◌>>=◌ expect
inner_bytes bytes = do (len, offset) ← der_length bytes; slice bytes offset (offset + len)

abbrev pub not_octet_string : EvalError
not_octet_string = x509_parse (codes "Extension value is not an OCTET STRING")

unfoldable pub unwrap_octet_string : Bytes → Result EvalError Bytes
unwrap_octet_string [] = err not_octet_string
unwrap_octet_string (tag ∷ rest) =
    if tag == 0x04 then inner_bytes (tag ∷ rest) else err not_octet_string
