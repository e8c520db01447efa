-- ===== src/Ca/Der.antt =====
-- The DER helpers of libs/rust-libs/auth-scope-ca/src/signing.rs. A `usize` is at most 2 ^ 64 - 1,
-- and the casts to `u8` are written out.
pub mod Standard
use Prim.Native.Nat.{bit_and}
use vm_auth_scope.Base.{ℕ, ◌/◌, ◌%◌, ◌^◌, [], ◌∷◌, ◌++◌, Bytes, length, ltb, leb, if◌then◌else◌}

-- `out` with the length field behind it.
unfoldable pub encode_der_length : Bytes → ℕ → Bytes
encode_der_length out len =
    if ltb len 0x80
    then out ++ (len % 256) ∷ []
    else if leb len 0xff
    then (out ++ 0x81 ∷ []) ++ (len % 256) ∷ []
    else ((out ++ 0x82 ∷ []) ++ (len / 2 ^ 8 % 256) ∷ []) ++ (bit_and len 0xff % 256) ∷ []

unfoldable pub encode_der_octet_string : Bytes → Bytes
unfolding encode_der_length
encode_der_octet_string data' =
    let out : Bytes = 0x04 ∷ [] in encode_der_length out (length data') ++ data'
