-- ===== src/Base/Number.antt =====
-- The standard library's numbers as text: `u32::from_str_radix`, `str::parse` and `{}`.
pub mod RoundTrip
use Prim.Native.Nat.{ℕ, zero, suc, ◌+◌, ◌-◌, ◌*◌, ◌/◌, ◌%◌, ◌^◌, ◌<◌}
use mathlib.Core.Path.{◌≡◌, refl}
use mathlib.Core.Bool.{Bool, true, false, ◌||◌, ◌&&◌}
use mathlib.Core.List.{List, [], ◌∷◌, ◌++◌}
use vm_auth_scope.Base.Tests.{ltb, leb, nat_beq, if◌then◌else◌}
use vm_auth_scope.Base.Strings.{Text, codes}
use vm_auth_scope.Base.Result.{Result, ok, err}

-- `std::num::IntErrorKind`, as far as an unsigned parse reports it.
pub data ParseIntError : Type 0 where
  empty invalid_digit pos_overflow : ParseIntError

abbrev pub u32_max : ℕ
u32_max = 2 ^ 32 - 1

-- The digits after the sign, for a radix of at most ten; each step is checked.
unfoldable pub parse_digits : ℕ → Text → ℕ → Result ParseIntError ℕ
parse_digits radix [] n = ok n
parse_digits radix (c ∷ s) n =
    let rest = parse_digits radix s (n * radix + (c - b'0')) in
    if ltb c b'0' || leb radix (c - b'0')
    then err invalid_digit
    else if ltb u32_max (n * radix + (c - b'0'))
    then err pos_overflow
    else rest

-- `u32::from_str_radix`: a plus sign may stand in front, but not alone.
unfoldable pub from_str_radix : Text → ℕ → Result ParseIntError ℕ
unfolding parse_digits
from_str_radix [] radix = err empty
from_str_radix (c ∷ []) radix =
    if nat_beq c b'+' || nat_beq c b'-' then err invalid_digit else parse_digits radix (c ∷ []) 0
from_str_radix (c ∷ d ∷ s) radix =
    if nat_beq c b'+' then parse_digits radix (d ∷ s) 0 else parse_digits radix (c ∷ d ∷ s) 0

-- The digits of `n` in front of `out`; the fuel is above `n`.
unfoldable pub digits_onto : ℕ → ℕ → ℕ → Text → Text
digits_onto zero radix n out = out
digits_onto (suc fuel) radix n out =
    let more = digits_onto fuel radix (n / radix) ((b'0' + n % radix) ∷ out) in
    if ltb n radix then (b'0' + n) ∷ out else more

unfoldable pub to_radix : ℕ → ℕ → Text
unfolding digits_onto
to_radix radix n = digits_onto (suc n) radix n []

-- `{}` of an unsigned number.
unfoldable pub to_text : ℕ → Text
unfolding to_radix
to_text n = to_radix 10 n

plus_sign : from_str_radix (codes "+17") 8 ≡ ok 15
unfolding from_str_radix
plus_sign = refl

over_u32 : from_str_radix (codes "4294967296") 10 ≡ err pos_overflow
unfolding from_str_radix
over_u32 = refl

largest : to_text u32_max ≡ codes "4294967295"
unfolding to_text
largest = refl

-- A big-endian number, behind the bytes that were read.
unfoldable pub big_endian : ℕ → List ℕ → ℕ
big_endian n [] = n
big_endian n (b ∷ bs) = big_endian (n * 256 + b) bs
