-- ===== src/Evaluator/OctetString/Exact.antt =====
-- Every outcome of the evaluator's reader of OCTET STRINGs.
use mathlib.Core.Path.{subst}
use vm_auth_scope.Base.{
  ℕ, ◌<◌, ◌≡◌, ◌≢◌, ◌↔◌, ◌⊎◌, inl, inr, refl, sym, ap, ◌∙◌, [], ◌∷◌, ◌++◌, Bytes, length, All,
  All-append_left, nat_beq, nat_beq_iff, Bool-cases, nat_eq, arith, length-append,
}
use vm_auth_scope.Base.Result.{ok, err, panic, ◌>>=◌}
use vm_auth_scope.Base.Result.Laws.{ok_injective}
use vm_auth_scope.Evaluator.OctetString.{
  slice, der_length, inner_bytes, not_octet_string, unwrap_octet_string,
}
use vm_auth_scope.Evaluator.OctetString.Standard.{content_read}
use vm_auth_scope.Evaluator.OctetString.Length.{
  IsLength, split_at, der_length_of_IsLength, measured_or_cut,
}

-- The tag, a length field, as many bytes as it says, and any others.
pub record IsWrapped (value content : Bytes) : Type 0 where
  pub field : Bytes
  pub rest : Bytes
  pub whole : value ≡ 0x04 ∷ (field ++ (content ++ rest))
  pub measured : IsLength field (length content)

-- The tag, but nothing that is wrapped behind it.
pub record IsCut (value : Bytes) : Type 0 where
  pub behind : Bytes
  pub tagged : value ≡ 0x04 ∷ behind
  pub unwrapped : (content : Bytes) → ¬ IsWrapped value content

unwrap_octet_string_of_IsWrapped :
    (value content : Bytes)
    → All (λ b. b < 256) value
    → IsWrapped value content
    → unwrap_octet_string value ≡ ok content
unfolding unwrap_octet_string
unwrap_octet_string_of_IsWrapped value content small w =
    let bytes = subst (All (λ b. b < 256)) w.whole small in
    let field_small = All-append_left (λ b. b < 256) w.field (content ++ w.rest) bytes.1 in
    ap unwrap_octet_string w.whole
    ∙ content_read (0x04 ∷ w.field) content w.rest
        (der_length_of_IsLength w.field (length content) (content ++ w.rest) w.measured field_small)

-- Fewer bytes than the length field says.
inner_cut :
    (front back : Bytes) (len : ℕ)
    → der_length (front ++ back) ≡ ok (len, length front)
    → length back < len
    → inner_bytes (front ++ back) ≡ panic
unfolding inner_bytes slice ◌>>=◌
inner_cut front back len e few = rw e (ground (arith, few, length-append front back))

-- Behind the tag, the reader gives what is wrapped, or it panics.
outcome :
    (l : Bytes)
    → All (λ b. b < 256) l
    → ((content : Bytes) × IsWrapped (0x04 ∷ l) content) ⊎ (unwrap_octet_string (0x04 ∷ l) ≡ panic)
unfolding unwrap_octet_string inner_bytes ◌>>=◌
outcome l small = elim (measured_or_cut l small) [
  | inr cut ↦ inr (rw cut refl)
  | inl (field, back, len, e, measured) ↦ elim (split_at len back) [
    | inl (content, rest, e', n) ↦ inl (
      content,
      record {
        field = field;
        rest = rest;
        whole = ap (λ x. 0x04 ∷ x) (e ∙ ap (λ x. field ++ x) e');
        measured = subst (IsLength field) (sym n) measured;
      },
    )
    | inr few ↦ inr (
        ap (λ x. inner_bytes (0x04 ∷ x)) e
        ∙ inner_cut (0x04 ∷ field) back len
            (der_length_of_IsLength field len back measured
              (All-append_left (λ b. b < 256) field back (subst (All (λ b. b < 256)) e small)))
            few)
  ]
]

untagged : (tag : ℕ) (l : Bytes) → unwrap_octet_string (tag ∷ l) ≢ err not_octet_string → tag ≡ 4
unfolding unwrap_octet_string
untagged tag l h = elim (Bool-cases (nat_beq tag 4)) [
  | inl same ↦ (nat_beq_iff tag 4).0 same
  | inr other ↦ absurd (h (rw other refl))
]

-- What is not refused has the tag.
tag_of :
    (value : Bytes)
    → unwrap_octet_string value ≢ err not_octet_string
    → (l : Bytes) × (value ≡ 0x04 ∷ l)
unfolding unwrap_octet_string
tag_of [] h = absurd (h refl)
tag_of (tag ∷ l) h = (l, ap (λ t. t ∷ l) (untagged tag l h))

module _ (value : Bytes) (small : All (λ b. b < 256) value) where
  tagged_outcome :
      (l : Bytes)
      → value ≡ 0x04 ∷ l
      → ((content : Bytes) × IsWrapped value content) ⊎ (unwrap_octet_string value ≡ panic)
  tagged_outcome l e =
      subst (λ v. ((content : Bytes) × IsWrapped v content) ⊎ (unwrap_octet_string v ≡ panic))
        (sym e) (outcome l (subst (All (λ b. b < 256)) e small).1)

  unwrap_octet_string-IsWrapped :
      (content : Bytes) → unwrap_octet_string value ≡ ok content → IsWrapped value content
  unwrap_octet_string-IsWrapped content h =
      let (l, e) = tag_of value (λ r. cc (sym h ∙ r)) in
      elim (tagged_outcome l e) [
        | inl (other, w) ↦
            subst (IsWrapped value)
              (ok_injective (sym (unwrap_octet_string_of_IsWrapped value other small w) ∙ h)) w
        | inr cut ↦ absurd (cc (sym h ∙ cut))
      ]

  unwrap_octet_string-IsCut : unwrap_octet_string value ≡ panic → IsCut value
  unwrap_octet_string-IsCut h =
      let (l, e) = tag_of value (λ r. cc (sym h ∙ r)) in
      record {
        behind = l;
        tagged = e;
        unwrapped =
            λ content w. cc (sym h ∙ unwrap_octet_string_of_IsWrapped value content small w);
      }

  pub unwrap_octet_string_of_IsCut : IsCut value → unwrap_octet_string value ≡ panic
  unwrap_octet_string_of_IsCut c = elim (tagged_outcome c.behind c.tagged) [
    | inl (content, w) ↦ absurd (c.unwrapped content w)
    | inr cut ↦ cut
  ]

  -- On any bytes, the evaluator's reader of OCTET STRINGs gives a content exactly when the tag, a
  -- length field and as many bytes as it says begin the value, and panics exactly when the tag
  -- begins it and no content is wrapped behind.
  pub unwrap_octet_string_iff :
      ((content : Bytes) → (unwrap_octet_string value ≡ ok content) ↔ IsWrapped value content)
      × ((unwrap_octet_string value ≡ panic) ↔ IsCut value)
  unwrap_octet_string_iff = (
    λ content. (
      unwrap_octet_string-IsWrapped content,
      unwrap_octet_string_of_IsWrapped value content small,
    ),
    (unwrap_octet_string-IsCut, unwrap_octet_string_of_IsCut),
  )
