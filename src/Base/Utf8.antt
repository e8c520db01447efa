-- ===== src/Base/Utf8.antt =====
-- The check of `std::str::from_utf8`, one byte at a time.
use Prim.Native.Nat.{ℕ, zero, suc, ◌<◌}
use mathlib.Core.Path.{◌≡◌, refl}
use mathlib.Core.Bool.{Bool, true, false, ◌&&◌}
use mathlib.Core.Option.{Option, none, some}
use mathlib.Core.List.{[], ◌∷◌}
use native.Mathlib.Omega.{arith}
use vm_auth_scope.Base.Tests.{ltb, leb, if◌then◌else◌}
use vm_auth_scope.Base.Strings.{Bytes}
use vm_auth_scope.Base.Lists.{All}

-- Between two characters, or `left` bytes before the end of one, the next of them in a range.
pub data Place : Type 0 where
  start : Place
  inside : ℕ → ℕ → ℕ → Place

-- The first byte of a character says how many follow, and bounds the second.
lead : ℕ → Option Place
lead b =
    if ltb b 0x80
    then some start
    else if ltb b 0xc2
    then none
    else if leb b 0xdf
    then some (inside 0 0x80 0xbf)
    else if leb b 0xe0
    then some (inside 1 0xa0 0xbf)
    else if leb b 0xec
    then some (inside 1 0x80 0xbf)
    else if leb b 0xed
    then some (inside 1 0x80 0x9f)
    else if leb b 0xef
    then some (inside 1 0x80 0xbf)
    else if leb b 0xf0
    then some (inside 2 0x90 0xbf)
    else if leb b 0xf3
    then some (inside 2 0x80 0xbf)
    else if leb b 0xf4
    then some (inside 2 0x80 0x8f)
    else none

advance : Place → ℕ → Option Place
advance start b = lead b
advance (inside zero lo hi) b = if leb lo b && leb b hi then some start else none
advance (inside (suc left) lo hi) b =
    if leb lo b && leb b hi then some (inside left 0x80 0xbf) else none

is_utf8_from : Place → Bytes → Bool
is_utf8_from start [] = true
is_utf8_from (inside left lo hi) [] = false
is_utf8_from p (b ∷ s) = elim (advance p b) [ none ↦ false | some q ↦ is_utf8_from q s ]

unfoldable pub is_utf8 : Bytes → Bool
unfolding is_utf8_from advance lead
is_utf8 s = is_utf8_from start s

pub is_utf8_ascii : (s : Bytes) → All (λ b. b < 128) s → is_utf8 s ≡ true
unfolding is_utf8
is_utf8_ascii [] h = refl
is_utf8_ascii (b ∷ s) h = ground (arith, is_utf8_ascii s h.1)

surrogate : is_utf8 (0xed ∷ 0xa0 ∷ 0x80 ∷ []) ≡ false
unfolding is_utf8
surrogate = refl

euro : is_utf8 (0xe2 ∷ 0x82 ∷ 0xac ∷ []) ≡ true
unfolding is_utf8
euro = refl
