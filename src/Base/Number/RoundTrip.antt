-- ===== src/Base/Number/RoundTrip.antt =====
-- Parsing the digits of a number gives the number.
use Prim.Native.Nat.{ℕ, zero, suc, ◌+◌, ◌-◌, ◌*◌, ◌/◌, ◌%◌, ◌≤◌, ◌<◌}
use native.Mathlib.Nat.{div-add-mod, div-add-mod'}
use vm_auth_scope.Base.Number.{u32_max, parse_digits, from_str_radix, digits_onto, to_radix}
use mathlib.Core.Path.{◌≡◌, ◌∙◌}
use mathlib.Core.Logic.{inl, inr}
use mathlib.Core.List.{[], ◌∷◌}
use native.Mathlib.Omega.{arith}
use vm_auth_scope.Base.Tests.{ltb, Bool-cases}
use vm_auth_scope.Base.Strings.{Text}
use vm_auth_scope.Base.Result.{ok}

add_sub : (d : ℕ) → b'0' + d - b'0' ≡ d
add_sub d = omega arith

quotient_lt : (n radix : ℕ) → 1 < radix → radix ≤ n → n / radix < n
quotient_lt n radix hr h = grind (arith, div-add-mod n radix)

quotient_pos : (n radix : ℕ) → 1 < radix → radix ≤ n → 0 < n / radix
quotient_pos n radix hr h = grind (arith, div-add-mod n radix)

parse_digit :
    (radix d n m : ℕ) (s : Text)
    → d < radix
    → n * radix + d ≡ m
    → m ≤ u32_max
    → parse_digits radix ((b'0' + d) ∷ s) n ≡ parse_digits radix s m
unfolding parse_digits
parse_digit radix d n m s hd e fits = ground (arith, add_sub d)

parse_digits-digits_onto :
    (radix fuel n : ℕ) (out : Text)
    → 1 < radix
    → n < fuel
    → n ≤ u32_max
    → parse_digits radix (digits_onto fuel radix n out) 0 ≡ parse_digits radix out n
unfolding digits_onto
parse_digits-digits_onto radix zero n out hr hf fits = absurd (omega arith)
parse_digits-digits_onto radix (suc fuel) n out hr hf fits = elim (Bool-cases (ltb n radix)) [
  | inl last ↦ rw last (parse_digit radix n 0 n out (ground arith) (omega arith) fits)
  | inr more ↦
      let small : n / radix < n = quotient_lt n radix hr (ground arith) in
      rw more (
        parse_digits-digits_onto radix fuel (n / radix) ((b'0' + n % radix) ∷ out) hr (omega arith)
          (omega arith)
        ∙ parse_digit radix (n % radix) (n / radix) n out (omega arith) (div-add-mod' n radix) fits)
]

-- The first digit, which is no zero unless the number is.
pub digits_onto_head :
    (radix fuel n : ℕ) (out : Text)
    → 1 < radix
    → n < fuel
    → (d : ℕ) × (t : Text) × (digits_onto fuel radix n out ≡ (b'0' + d) ∷ t)
      × (d < radix)
      × (0 < n → 0 < d)
unfolding digits_onto
digits_onto_head radix zero n out hr hf = absurd (omega arith)
digits_onto_head radix (suc fuel) n out hr hf = elim (Bool-cases (ltb n radix)) [
  | inl last ↦ (n, out, rw last, ground arith, λ h. h)
  | inr more ↦
      let small : n / radix < n = quotient_lt n radix hr (ground arith) in
      let (d, t, e, lt, pos) =
        digits_onto_head radix fuel (n / radix) ((b'0' + n % radix) ∷ out) hr (omega arith) in
      (d, t, rw more e, lt, λ h. pos (quotient_pos n radix hr (ground arith)))
]

from_str_radix_unsigned :
    (radix d : ℕ) (t : Text)
    → d ≤ 9
    → from_str_radix ((b'0' + d) ∷ t) radix ≡ parse_digits radix ((b'0' + d) ∷ t) 0
unfolding from_str_radix
from_str_radix_unsigned radix d [] h = ground arith
from_str_radix_unsigned radix d (c ∷ t) h = ground arith

-- A text that begins with a digit has no sign.
pub from_str_radix_of_head :
    (radix d : ℕ) (s t : Text)
    → d ≤ 9
    → s ≡ (b'0' + d) ∷ t
    → from_str_radix s radix ≡ parse_digits radix s 0
from_str_radix_of_head radix d s t h e = rw e (from_str_radix_unsigned radix d t h)

-- `from_str_radix` reads back what `to_radix` wrote.
pub from_str_radix-to_radix :
    (radix n : ℕ)
    → 1 < radix
    → radix ≤ 10
    → n ≤ u32_max
    → from_str_radix (to_radix radix n) radix ≡ ok n
unfolding to_radix parse_digits
from_str_radix-to_radix radix n hr hi fits =
    let (d, t, e, lt, _) = digits_onto_head radix (suc n) n [] hr (omega arith) in
    from_str_radix_of_head radix d _ t (omega arith) e
    ∙ parse_digits-digits_onto radix (suc n) n [] hr (omega arith) fits
