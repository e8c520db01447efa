-- ===== src/Go/Evaluator/Search.antt =====
-- The search for the capability extension.
use vm_auth_scope.Base.{
  ℕ, ◌≡◌, ◌≢◌, ◌↔◌, inl, inr, refl, ap, ◌∙◌, true, Bool-cases, some, List, [], ◌∷◌, ◌++◌, Bytes,
  All, arith,
}
use mathlib.Core.Option.{some-injective}
use vm_auth_scope.Go.Evaluator.{cap_extension_oid, oid_equal, find_extension}
use vm_auth_scope.Go.Library.{Extension}

oid_equal_iff : (a b : List ℕ) → (oid_equal a b ≡ true) ↔ (a ≡ b)
unfolding oid_equal
oid_equal_iff [] [] = ((λ _. refl), (λ _. refl))
oid_equal_iff [] (y ∷ b) = ((λ h. absurd (cc h)), (λ h. absurd (cc h)))
oid_equal_iff (x ∷ a) [] = ((λ h. absurd (cc h)), (λ h. absurd (cc h)))
oid_equal_iff (x ∷ a) (y ∷ b) = ground (arith, oid_equal_iff a b)

-- The first extension with the identifier has the value.
pub record IsFirst (exts : List Extension) (value : Bytes) : Type 0 where
  pub front : List Extension
  pub back : List Extension
  pub split : exts ≡ front ++ record { id = cap_extension_oid; value = value } ∷ back
  pub others : All (λ (e : Extension). e.id ≢ cap_extension_oid) front

find_extension-IsFirst :
    (exts : List Extension) (value : Bytes) → find_extension exts ≡ some value → IsFirst exts value
unfolding find_extension
find_extension-IsFirst [] value h = absurd (cc h)
find_extension-IsFirst (e ∷ exts) value h = elim (Bool-cases (oid_equal e.id cap_extension_oid)) [
  | inl same ↦ record {
    front = [];
    back = exts;
    split =
        ap (λ (x : Extension). x ∷ exts)
          (cc (
            (oid_equal_iff e.id cap_extension_oid).0 same,
            some-injective e.value value (rw same at h),
          ));
    others = tt;
  }
  | inr differs ↦
      let f = find_extension-IsFirst exts value (rw differs at h) in
      record {
        front = e ∷ f.front;
        back = f.back;
        split = ap (λ l. e ∷ l) f.split;
        others = ((λ same. cc (differs, (oid_equal_iff e.id cap_extension_oid).1 same)), f.others);
      }
]

find_extension_front :
    (front back : List Extension) (value : Bytes)
    → All (λ (e : Extension). e.id ≢ cap_extension_oid) front
    → find_extension (front ++ record { id = cap_extension_oid; value = value } ∷ back) ≡ some value
unfolding find_extension
find_extension_front [] back value h =
    rw ((oid_equal_iff cap_extension_oid cap_extension_oid).1 refl)
find_extension_front (e ∷ front) back value h =
    elim (Bool-cases (oid_equal e.id cap_extension_oid)) [
      | inl same ↦ absurd (h.0 ((oid_equal_iff e.id cap_extension_oid).0 same))
      | inr differs ↦ rw differs (find_extension_front front back value h.1)
    ]

pub find_extension_iff :
    (exts : List Extension) (value : Bytes)
    → (find_extension exts ≡ some value) ↔ IsFirst exts value
find_extension_iff exts value = (
  find_extension-IsFirst exts value,
  λ f. ap find_extension f.split ∙ find_extension_front f.front f.back value f.others,
)
