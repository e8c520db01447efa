-- ===== src/Ca/Jwt/Split.antt =====
-- Splitting a compact token at its first two dots.
use vm_auth_scope.Base.{
  ℕ, ◌≡◌, ◌≢◌, some, Option-cases, [], ◌∷◌, ◌++◌, Text, All, nat_eq, arith, inl, inr,
}
use vm_auth_scope.Ca.Jwt.{split_once, splitn}

-- No byte of the text is the separator.
abbrev pub Lacks : ℕ → Text → Type 0
Lacks sep = All (λ c. c ≢ sep)

pub split_once-append :
    (sep : ℕ) (a b : Text) → Lacks sep a → split_once sep (a ++ sep ∷ b) ≡ some (a, b)
unfolding split_once
split_once-append sep [] b h = ground arith
split_once-append sep (c ∷ a) b h = ground (arith, split_once-append sep a b h.1)

pub split_once-eq-some :
    (sep : ℕ) (s a b : Text) → split_once sep s ≡ some (a, b) → (s ≡ a ++ sep ∷ b) × Lacks sep a
unfolding split_once
split_once-eq-some sep [] a b h = cc
split_once-eq-some sep (c ∷ s) a b h = elim (Option-cases (split_once sep s)) [
  | inl e ↦ ground arith
  | inr ((a', b'), e) ↦ ground (arith, split_once-eq-some sep s a' b' e)
]

-- A token of three parts, the first two without dots, is split into them.
pub splitn-dotted :
    (sep : ℕ) (a b c : Text)
    → Lacks sep a
    → Lacks sep b
    → splitn 3 sep (a ++ sep ∷ (b ++ sep ∷ c)) ≡ a ∷ b ∷ c ∷ []
unfolding splitn
splitn-dotted sep a b c ha hb =
    ground (arith, split_once-append sep a (b ++ sep ∷ c) ha, split_once-append sep b c hb)

pub splitn-eq :
    (sep : ℕ) (s a b c : Text)
    → splitn 3 sep s ≡ a ∷ b ∷ c ∷ []
    → (s ≡ a ++ sep ∷ (b ++ sep ∷ c)) × Lacks sep a × Lacks sep b
unfolding splitn
splitn-eq sep s a b c h = elim (Option-cases (split_once sep s)) [
  | inl e ↦ absurd (ground arith)
  | inr ((a', r), e) ↦ elim (Option-cases (split_once sep r)) [
    | inl e' ↦ absurd (ground arith)
    | inr ((b', c'), e') ↦
        ground (arith, split_once-eq-some sep s a' r e, split_once-eq-some sep r b' c' e')
  ]
]
