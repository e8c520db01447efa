-- ===== src/Base/Bits.antt =====
-- `|` of disjoint bytes and `&` with a mask, as arithmetic.
use Prim.Native.Nat.{ℕ, ◌-◌, zero, suc, ◌+◌, ◌*◌, ◌/◌, ◌%◌, ◌^◌, ◌≤◌, ◌<◌, max, min}
use Prim.Native.Nat.{bit_and, bit_or, digits, bit_or-bitwise, bit_and-bitwise}
use mathlib.Core.Path.{◌≡◌, refl, ap, ◌∙◌}
use mathlib.Core.Bool.{Bool, true, ◌&&◌}
use native.Mathlib.Nat.{
  pow-suc, one-le-pow, div-add-mod, mul-add-mod_self_right, mod-eq_of_lt, mod-lt,
}
use native.Mathlib.Omega.{arith}
use vm_auth_scope.Base.Tests.{nat_beq, nat_beq_iff}

-- Two functions give the same on every argument below a bound, by evaluation.
agree : (f g : ℕ → ℕ) → ℕ → Bool
agree f g zero = true
agree f g (suc bound) = nat_beq (f bound) (g bound) && agree f g bound

same_below : (bound : ℕ) (f g : ℕ → ℕ) → agree f g bound ≡ true → (x : ℕ) → x < bound → f x ≡ g x
unfolding agree
same_below zero f g table x below = absurd (omega (arith, below))
same_below (suc bound) f g table x below =
    grind (arith, same_below bound f g, nat_beq_iff (f bound) (g bound))

pub top_bit : (b : ℕ) → b < 256 → bit_and b 0x80 ≡ b / 128 * 128
unfolding agree
top_bit = same_below 256 _ _ refl

pub low_bits : (b : ℕ) → b < 256 → bit_and b 0x7f ≡ b % 128
unfolding agree
low_bits = same_below 256 _ _ refl

mul-two_pow : (x k : ℕ) → x * 2 ^ suc k ≡ 2 * (x * 2 ^ k)
mul-two_pow x k = omega (arith, ap (λ (t : ℕ). x * t) (pow-suc 2 k))

-- On the digits of a multiple of `2 ^ k` and a number below it, `|` adds.
or_disjoint :
    (n a b k x : ℕ) → a ≤ n → a ≡ x * 2 ^ k → b < 2 ^ k → digits (λ y. y) max n a b ≡ a + b
or_disjoint zero zero b k x h e lt = omega arith
or_disjoint zero (suc a) b k x h e lt = absurd (omega arith)
or_disjoint (suc n) zero b k x h e lt = omega arith
or_disjoint (suc n) (suc a) b zero x h e lt = omega (
  arith,
  or_disjoint n (suc a / 2) (b / 2) 0 (suc a / 2) (omega arith) (omega arith) (omega arith),
)
or_disjoint (suc n) (suc a) b (suc k) x h e lt =
    let halved : suc a ≡ 2 * (x * 2 ^ k) = omega (arith, mul-two_pow x k) in
    omega (
      arith,
      or_disjoint n (suc a / 2) (b / 2) k x (omega arith) (omega arith)
          (omega (arith, pow-suc 2 k)),
    )

-- `(x << 8) | b` is a sum when `b` is a byte.
pub bit_or_byte : (x b : ℕ) → b < 256 → bit_or (x * 256) b ≡ x * 256 + b
bit_or_byte x b h =
    bit_or-bitwise (x * 256) b ∙ or_disjoint (x * 256) (x * 256) b 8 x (omega arith) (omega arith) h

double_pow : (k : ℕ) → 2 ^ suc k ≡ 2 * 2 ^ k
double_pow k = omega (arith, pow-suc 2 k)

mod_double : (n m : ℕ) → 0 < m → n % (2 * m) ≡ 2 * (n / 2 % m) + n % 2
mod_double n m h =
    let r : ℕ = 2 * (n / 2 % m) + n % 2 in
    let split : n ≡ n / 2 / m * (2 * m) + r = omega (arith, div-add-mod (n / 2) m) in
    ap (λ (t : ℕ). t % (2 * m)) split
    ∙ mul-add-mod_self_right (n / 2 / m) (2 * m) r
    ∙ mod-eq_of_lt (omega (arith, mod-lt (n / 2) h))

-- `&` with `k` ones is the remainder by `2 ^ k`.
and_ones : (n a k : ℕ) → a ≤ n → digits (λ y. 0) min n a (2 ^ k - 1) ≡ a % 2 ^ k
and_ones zero zero k h = omega arith
and_ones zero (suc a) k h = absurd (omega arith)
and_ones (suc n) zero k h = omega arith
and_ones (suc n) (suc a) zero h = omega (arith, and_ones n (suc a / 2) 0 (omega arith))
and_ones (suc n) (suc a) (suc k) h =
    let half : (2 ^ suc k - 1) / 2 ≡ 2 ^ k - 1 =
      omega (arith, pow-suc 2 k, one-le-pow k 2 (omega arith)) in
    let odd : (2 ^ suc k - 1) % 2 ≡ 1 = omega (arith, pow-suc 2 k, one-le-pow k 2 (omega arith)) in
    rw (half, odd)
      (omega (
        arith,
        and_ones n (suc a / 2) k (omega arith),
        mod_double (suc a) (2 ^ k) (one-le-pow k 2 (omega arith)),
        ap (λ (t : ℕ). suc a % t) (double_pow k),
      ))

pub bit_and_byte : (x : ℕ) → bit_and x 0xff ≡ x % 256
bit_and_byte x = bit_and-bitwise x 0xff ∙ and_ones x x 8 (omega arith)
