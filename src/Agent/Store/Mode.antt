-- ===== src/Agent/Store/Mode.antt =====
-- Octal modes as text, with and without leading zeros.
use vm_auth_scope.Base.{
  ℕ, zero, suc, ◌+◌, ◌<◌, ◌≤◌, ◌≡◌, refl, ap, ◌∙◌, [], ◌∷◌, Text, nat_beq, false, arith,
}
use vm_auth_scope.Agent.Store.{trim_zeros, or_zero, parse_octal_mode}
use vm_auth_scope.Base.Number.{u32_max, from_str_radix, to_radix, digits_onto}
use vm_auth_scope.Base.Number.RoundTrip.{digits_onto_head, from_str_radix-to_radix}
use vm_auth_scope.Base.Result.{ok}
use vm_auth_scope.Base.Result.Laws.{map_err_of_ok}

-- `k` zeros in front.
unfoldable pub zeros_onto : ℕ → Text → Text
zeros_onto zero s = s
zeros_onto (suc k) s = b'0' ∷ zeros_onto k s

trim_zeros-zeros_onto : (k : ℕ) (s : Text) → trim_zeros (zeros_onto k s) ≡ trim_zeros s
unfolding trim_zeros zeros_onto
trim_zeros-zeros_onto zero s = refl
trim_zeros-zeros_onto (suc k) s = trim_zeros-zeros_onto k s

trim_zeros_of_head : (d : ℕ) (s t : Text) → s ≡ (b'0' + d) ∷ t → 0 < d → or_zero (trim_zeros s) ≡ s
unfolding trim_zeros
trim_zeros_of_head d s t e pos =
    let other : nat_beq (b'0' + d) b'0' ≡ false = ground arith in rw e (rw other refl)

-- The digits that the printer writes are what trimming leaves of them.
trim_zeros-to_radix : (n : ℕ) → or_zero (trim_zeros (to_radix 8 n)) ≡ to_radix 8 n
unfolding to_radix
trim_zeros-to_radix zero = unfold trim_zeros digits_onto in refl
trim_zeros-to_radix (suc n) =
    let (d, t, e, _, pos) =
      digits_onto_head 8 (suc (suc n)) (suc n) [] (omega arith) (omega arith) in
    trim_zeros_of_head d _ t e (pos (omega arith))

-- The octal digits of every 32-bit number, with any number of zeros in front, are read as that
-- number.
pub parse_octal_mode-to_radix :
    (k n : ℕ) → n ≤ u32_max → parse_octal_mode (zeros_onto k (to_radix 8 n)) ≡ ok n
unfolding parse_octal_mode
parse_octal_mode-to_radix k n fits = map_err_of_ok _ _ (
    ap (λ s. from_str_radix (or_zero s) 8) (trim_zeros-zeros_onto k (to_radix 8 n))
    ∙ ap (λ s. from_str_radix s 8) (trim_zeros-to_radix n)
    ∙ from_str_radix-to_radix 8 n (omega arith) (omega arith) fits)
