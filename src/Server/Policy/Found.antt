-- ===== src/Server/Policy/Found.antt =====
-- What `resolve` finds.
use mathlib.Core.Option.{get_or, some-injective}
use vm_auth_scope.Base.{
  ◌≡◌, ◌≢◌, ◌↔◌, refl, sym, ap, ◌∙◌, Bool-cases, inl, inr, Option, none, some, [], ◌∷◌, Text,
  text_beq, text_beq_iff,
}
use vm_auth_scope.Server.Config.{HashMap, get, EntityPolicy, VmEntry, HostConfig}
use vm_auth_scope.Server.Policy.{PolicyDecision, resolve}

-- The first entry with the key has the value.
pub data IsFirst {V : Type 0} (key : Text) (v : V) : HashMap V → Type 0 where
  first : {k : Text} {w : V} {m : HashMap V} → k ≡ key → w ≡ v → IsFirst key v ((k, w) ∷ m)
  later :
      {k : Text} {w : V} {m : HashMap V} → k ≢ key → IsFirst key v m → IsFirst key v ((k, w) ∷ m)

module _ {V : Type 0} (key : Text) (v : V) where
  get-IsFirst : (m : HashMap V) → get m key ≡ some v → IsFirst key v m
  unfolding get
  get-IsFirst [] h = absurd (cc h)
  get-IsFirst ((k, w) ∷ m) h = elim (Bool-cases (text_beq k key)) [
    | inl same ↦ first ((text_beq_iff k key).0 same) (some-injective w v (rw same at h))
    | inr differs ↦
        later (λ e. cc (differs, (text_beq_iff k key).1 e)) (get-IsFirst m (rw differs at h))
  ]

  get_of_IsFirst : (m : HashMap V) → IsFirst key v m → get m key ≡ some v
  unfolding get
  get_of_IsFirst [] h = elim h [ ]
  get_of_IsFirst ((k, w) ∷ m) (first same e) = rw ((text_beq_iff k key).1 same) (ap some e)
  get_of_IsFirst ((k, w) ∷ m) (later differs h) = elim (Bool-cases (text_beq k key)) [
    | inl same ↦ absurd (differs ((text_beq_iff k key).0 same))
    | inr other ↦ rw other (get_of_IsFirst m h)
  ]

-- The configuration knows the VM, and the VM the entity.
pub record IsFound (config : HostConfig) (vm_name entity : Text) (d : PolicyDecision) : Type 0 where
  pub entry : VmEntry
  pub policy : EntityPolicy
  pub vm_known : IsFirst vm_name entry config.vms
  pub entity_known : IsFirst entity policy entry.entities
  pub same_name : d.vm_name ≡ vm_name
  pub same_cid : d.vm_cid ≡ entry.vm_cid
  pub same_caps : d.caps ≡ policy.caps
  pub same_validity : d.validity_days ≡ get_or policy.validity_days config.cert_validity_days

module _ (config : HostConfig) (vm_name entity : Text) (d : PolicyDecision) where
  decision_of : VmEntry → EntityPolicy → PolicyDecision
  decision_of entry policy = record {
    vm_name = vm_name;
    vm_cid = entry.vm_cid;
    caps = policy.caps;
    validity_days = get_or policy.validity_days config.cert_validity_days;
  }

  IsFound-decision_of :
      (entry : VmEntry) (policy : EntityPolicy)
      → get config.vms vm_name ≡ some entry
      → get entry.entities entity ≡ some policy
      → decision_of entry policy ≡ d
      → IsFound config vm_name entity d
  unfolding decision_of
  IsFound-decision_of entry policy e₁ e₂ same = record {
    entry = entry;
    policy = policy;
    vm_known = get-IsFirst vm_name entry config.vms e₁;
    entity_known = get-IsFirst entity policy entry.entities e₂;
    same_name = sym (ap (λ (x : PolicyDecision). x.vm_name) same);
    same_cid = sym (ap (λ (x : PolicyDecision). x.vm_cid) same);
    same_caps = sym (ap (λ (x : PolicyDecision). x.caps) same);
    same_validity = sym (ap (λ (x : PolicyDecision). x.validity_days) same);
  }

  resolve-some :
      (o : Option VmEntry) (q : VmEntry → Option EntityPolicy)
      → get config.vms vm_name ≡ o
      → ((entry : VmEntry) → get entry.entities entity ≡ q entry)
      → resolve config vm_name entity ≡ some d
      → IsFound config vm_name entity d
  unfolding resolve decision_of
  resolve-some none q e f h = absurd (cc (rw (e, resolve) at h))
  resolve-some (some entry) q e f h = found (q entry) refl
    where
      found : (p : Option EntityPolicy) → q entry ≡ p → IsFound config vm_name entity d
      found none g = absurd (cc (rw (e, f entry, g, resolve) at h))
      found (some policy) g =
          IsFound-decision_of entry policy e (f entry ∙ g)
            (some-injective (decision_of entry policy) d (rw (e, f entry, g, resolve) at h))

  resolve_of_IsFound : IsFound config vm_name entity d → resolve config vm_name entity ≡ some d
  unfolding resolve
  resolve_of_IsFound f =
      rw (get_of_IsFirst vm_name f.entry config.vms f.vm_known, resolve)
        (rw (get_of_IsFirst entity f.policy f.entry.entities f.entity_known, resolve)
          (ap some (cc (f.same_name, f.same_cid, f.same_caps, f.same_validity))))

  -- `resolve` gives a decision exactly when the first entry for the VM's name has, for the entity's
  -- name, a first policy: the decision then has the name, the VM's CID, the policy's capabilities
  -- and its validity, or the host's where it has none.
  pub resolve_iff : (resolve config vm_name entity ≡ some d) ↔ IsFound config vm_name entity d
  resolve_iff = (
    λ h.
        resolve-some (get config.vms vm_name) (λ entry. get entry.entities entity) refl
          (λ entry. refl) h,
    resolve_of_IsFound,
  )
