-- ===== src/Go/Evaluator/Split.antt =====
-- The parts of a text at a separator.
use mathlib.Core.Path.{subst}
use vm_auth_scope.Base.{
  ℕ, ◌≡◌, ◌≢◌, inl, inr, refl, sym, ap, ◌∙◌, Bool-cases, List, [], ◌∷◌, ◌++◌, Text, nat_beq,
  nat_beq_iff, arith,
}
use vm_auth_scope.Ca.Jwt.Split.{Lacks}
use vm_auth_scope.Go.Evaluator.{onto_first, split}

module _ (sep : ℕ) where
  split-Lacks : (a : Text) → Lacks sep a → split sep a ≡ a ∷ []
  unfolding split onto_first
  split-Lacks [] h = refl
  split-Lacks (c ∷ a) h = ground (arith, split-Lacks a h.1)

  split-append : (a s : Text) → Lacks sep a → split sep (a ++ sep ∷ s) ≡ a ∷ split sep s
  unfolding split onto_first
  split-append [] s h = ground arith
  split-append (c ∷ a) s h = ground (arith, split-append a s h.1)

  -- Three parts without the separator.
  pub split_three :
      (a b c : Text)
      → Lacks sep a
      → Lacks sep b
      → Lacks sep c
      → split sep (a ++ sep ∷ (b ++ sep ∷ c)) ≡ a ∷ b ∷ c ∷ []
  split_three a b c ha hb hc =
      split-append a (b ++ sep ∷ c) ha
      ∙ ap (λ l. a ∷ l) (split-append b c hb ∙ ap (λ l. b ∷ l) (split-Lacks c hc))

  -- The first part is the text, or ends at the first separator.
  data Cut (s : Text) : Type 0 where
    whole : Lacks sep s → Cut s
    before : (a rest : Text) → s ≡ a ++ sep ∷ rest → Lacks sep a → Cut s

  cut : (s : Text) → Cut s
  cut [] = whole tt
  cut (c ∷ s) = elim (Bool-cases (nat_beq c sep)) [
    | inl same ↦ before [] s (ap (λ x. x ∷ s) ((nat_beq_iff c sep).0 same)) tt
    | inr differs ↦ elim (cut s) [
      | whole h ↦ whole ((λ e. cc (differs, (nat_beq_iff c sep).1 e)), h)
      | before a rest e h ↦
          before (c ∷ a) rest (ap (λ x. c ∷ x) e) ((λ e. cc (differs, (nat_beq_iff c sep).1 e)), h)
    ]
  ]

  split-ne-nil : (s : Text) → split sep s ≢ []
  split-ne-nil s h = elim (cut s) [
    | whole lacks ↦ cc (h, split-Lacks s lacks)
    | before a rest e lacks ↦ cc (h, ap (split sep) e, split-append a rest lacks)
  ]

  one_part : (s c : Text) → split sep s ≡ c ∷ [] → (s ≡ c) × Lacks sep c
  one_part s c h = elim (cut s) [
    | whole lacks ↦
        let same : s ≡ c = cc (h, split-Lacks s lacks) in (same, subst (Lacks sep) same lacks)
    | before a rest e lacks ↦
        absurd (split-ne-nil rest (cc (h, ap (split sep) e, split-append a rest lacks)))
  ]

  more_parts :
      (s a b : Text) (l : List Text)
      → split sep s ≡ a ∷ b ∷ l
      → (rest : Text) × (s ≡ a ++ sep ∷ rest) × Lacks sep a × (split sep rest ≡ b ∷ l)
  more_parts s a b l h = elim (cut s) [
    | whole lacks ↦ absurd (cc (h, split-Lacks s lacks))
    | before a' rest e lacks ↦
        let both : a' ∷ split sep rest ≡ a ∷ b ∷ l =
          sym (ap (split sep) e ∙ split-append a' rest lacks) ∙ h in
        let same : a' ≡ a = cc both in
        (rest, e ∙ ap (λ x. x ++ sep ∷ rest) same, subst (Lacks sep) same lacks, cc both)
  ]

  pub split-eq :
      (s a b c : Text)
      → split sep s ≡ a ∷ b ∷ c ∷ []
      → (s ≡ a ++ sep ∷ (b ++ sep ∷ c)) × Lacks sep a × Lacks sep b × Lacks sep c
  split-eq s a b c h =
      let (t, e, la, h₁) = more_parts s a b (c ∷ []) h in
      let (u, e', lb, h₂) = more_parts t b c [] h₁ in
      let (e'', lc) = one_part u c h₂ in
      (e ∙ ap (λ x. a ++ sep ∷ x) (e' ∙ ap (λ x. b ++ sep ∷ x) e''), la, lb, lc)
