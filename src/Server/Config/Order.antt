-- ===== src/Server/Config/Order.antt =====
-- A `HashMap` has no order: nothing depends on that of its entries.
use mathlib.Core.List.{Perm, Mem}
use mathlib.Core.List.Perm
use mathlib.Core.List as List
use mathlib.Core.Logic.Or
use mathlib.Core.HLevel.{⊥_prop}
use mathlib.Core.Option.{some-injective}
use mathlib.Core.Path.{ap₂, subst}
use vm_auth_scope.Base.{
  ◌≡◌, refl, sym, ap, ◌∙◌, Bool-cases, inl, inr, Option, none, some, [], ◌∷◌, Text, text_beq,
  text_beq_iff,
}
use vm_auth_scope.Server.Config.{HashMap, get}

-- A key has one value.
pub record IsMap {V : Type 0} (m : HashMap V) : Type 0 where
  pub one : (k : Text) (v w : V) → Mem (k, v) m → Mem (k, w) m → v ≡ w

module _ {V : Type 0} (key : Text) where
  get-Mem : (m : HashMap V) (v : V) → get m key ≡ some v → Mem (key, v) m
  unfolding get
  get-Mem [] v h = absurd (cc h)
  get-Mem ((k, w) ∷ m) v h = elim (Bool-cases (text_beq k key)) [
    | inl same ↦
        let pair : ◌≡◌ {A = Text × V} (key, v) (k, w) =
          ap₂ (λ x y. (x, y)) (sym ((text_beq_iff k key).0 same))
            (sym (some-injective w v (rw same at h))) in
        subst (λ (p : Text × V). Mem (key, v) (p ∷ m)) pair List.mem-cons_self
    | inr differs ↦ List.mem-cons_of_mem (k, w) (get-Mem m v (rw differs at h))
  ]

  get-none : (m : HashMap V) (v : V) → get m key ≡ none → ¬ Mem (key, v) m
  unfolding get
  get-none [] v h among = List.not-mem-nil among
  get-none ((k, w) ∷ m) v h among = elim (Bool-cases (text_beq k key)) [
    | inl same ↦ absurd (cc (rw same at h))
    | inr differs ↦
        Or.elim ⊥_prop (List.eq-or-mem_of_mem-cons among)
          (λ e. cc (differs, (text_beq_iff k key).1 (sym (ap (λ (p : Text × V). p.0) e))))
          (get-none m v (rw differs at h))
  ]

  same_value :
      (m m' : HashMap V) (o o' : Option V)
      → IsMap m
      → Perm m m'
      → get m key ≡ o
      → get m' key ≡ o'
      → o ≡ o'
  same_value m m' none none one p e e' = refl
  same_value m m' (some v) none one p e e' =
      absurd (get-none m' v e' ((Perm.mem_iff p).0 (get-Mem m v e)))
  same_value m m' none (some w) one p e e' =
      absurd (get-none m w e ((Perm.mem_iff p).1 (get-Mem m' w e')))
  same_value m m' (some v) (some w) one p e e' =
      ap some (one.one key v w (get-Mem m v e) ((Perm.mem_iff p).1 (get-Mem m' w e')))

  pub get-Perm : (m m' : HashMap V) → IsMap m → Perm m m' → get m key ≡ get m' key
  get-Perm m m' one p = same_value m m' (get m key) (get m' key) one p refl refl

pub nil-IsMap : {V : Type 0} → IsMap {V = V} []
nil-IsMap = record { one = λ k v w among. absurd (List.not-mem-nil among) }

-- A key that is not there yet may be added.
module _ {V : Type 0} (V-IsSet : IsSet V) (key : Text) (value : V) (m : HashMap V)
    (fresh : get m key ≡ none) (one : IsMap m) where
  value_of :
      (k : Text) (v w : V)
      → ◌≡◌ {A = Text × V} (k, v) (key, value)
      → Mem (k, w) ((key, value) ∷ m)
      → v ≡ w
  value_of k v w e among =
      let same : k ≡ key = ap (λ (p : Text × V). p.0) e in
      Or.elim (V-IsSet v w) (List.eq-or-mem_of_mem-cons among)
        (λ e'. ap (λ (p : Text × V). p.1) (e ∙ sym e'))
        (λ later. absurd (get-none key m w fresh (subst (λ x. Mem (x, w) m) same later)))

  pub cons-IsMap : IsMap ((key, value) ∷ m)
  cons-IsMap = record {
    one = λ k v w a b.
        Or.elim (V-IsSet v w) (List.eq-or-mem_of_mem-cons a) (λ e. value_of k v w e b)
          (λ a'.
            Or.elim (V-IsSet v w) (List.eq-or-mem_of_mem-cons b) (λ e. sym (value_of k w v e a))
              (λ b'. one.one k v w a' b'));
  }
