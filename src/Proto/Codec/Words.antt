-- ===== src/Proto/Codec/Words.antt =====
-- The four bytes of a frame's length.
use vm_auth_scope.Base.{ℕ, ◌≡◌, ◌<◌, ◌^◌, length, refl, arith}
use vm_auth_scope.Proto.Codec.{to_be_bytes, from_be_bytes}

pub length-to_be_bytes : (n : ℕ) → length (to_be_bytes n) ≡ 4
unfolding to_be_bytes
length-to_be_bytes n = refl

pub from_be_bytes-to_be_bytes : (n : ℕ) → n < 2 ^ 32 → from_be_bytes (to_be_bytes n) ≡ n
unfolding from_be_bytes to_be_bytes
from_be_bytes-to_be_bytes n h = omega arith
