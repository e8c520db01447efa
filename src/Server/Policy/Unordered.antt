-- ===== src/Server/Policy/Unordered.antt =====
-- The policy is read from JSON objects, whose members have no order.
use mathlib.Core.List.{Perm}
use mathlib.Core.Option.{get_or}
use mathlib.Core.Path.{ap₂}
use vm_auth_scope.Base.{
  ℕ, ◌≡◌, refl, sym, ap, ◌∙◌, Bool-cases, inl, inr, Option, none, some, [], ◌∷◌, Text, text_beq,
}
use vm_auth_scope.Server.Config.{HashMap, get, EntityPolicy, VmEntry, HostConfig}
use vm_auth_scope.Server.Config.Order.{IsMap, get-Perm}
use vm_auth_scope.Server.Policy.{PolicyDecision, resolve}

-- The same VMs in the same order, each with its CID and its entities in any order.
pub data IsShuffled : HashMap VmEntry → HashMap VmEntry → Type 0 where
  no_vms : IsShuffled [] []
  vm :
      (name : Text) (e e' : VmEntry) {m m' : HashMap VmEntry}
      → e.vm_cid ≡ e'.vm_cid
      → IsMap e.entities
      → Perm e.entities e'.entities
      → IsShuffled m m'
      → IsShuffled ((name, e) ∷ m) ((name, e') ∷ m')

module _ (vm_name entity : Text) where
  with_policy : ℕ → ℕ → Option EntityPolicy → Option PolicyDecision
  with_policy days cid none = none
  with_policy days cid (some policy) = some (record {
    vm_name = vm_name;
    vm_cid = cid;
    caps = policy.caps;
    validity_days = get_or policy.validity_days days;
  })

  -- `resolve`, by what the configuration has under the VM's name.
  decided : ℕ → Option VmEntry → Option PolicyDecision
  decided days none = none
  decided days (some vm_entry) = with_policy days vm_entry.vm_cid (get vm_entry.entities entity)

  resolve-decided :
      (config : HostConfig)
      → resolve config vm_name entity ≡ decided config.cert_validity_days (get config.vms vm_name)
  unfolding resolve decided with_policy
  resolve-decided config = by_entry (get config.vms vm_name) refl
    where
      by_policy :
          (vm_entry : VmEntry) (o : Option EntityPolicy)
          → get config.vms vm_name ≡ some vm_entry
          → get vm_entry.entities entity ≡ o
          → resolve config vm_name entity ≡ with_policy config.cert_validity_days vm_entry.vm_cid o
      by_policy vm_entry none e f = rw (e, resolve) (rw (f, resolve) refl)
      by_policy vm_entry (some policy) e f = rw (e, resolve) (rw (f, resolve) refl)

      by_entry :
          (o : Option VmEntry)
          → get config.vms vm_name ≡ o
          → resolve config vm_name entity ≡ decided config.cert_validity_days o
      by_entry none e = rw (e, resolve) refl
      by_entry (some vm_entry) e = by_policy vm_entry (get vm_entry.entities entity) e refl

  decided_shuffled :
      (days : ℕ) (m m' : HashMap VmEntry)
      → IsShuffled m m'
      → decided days (get m vm_name) ≡ decided days (get m' vm_name)
  unfolding get decided
  decided_shuffled days _ _ no_vms = refl
  decided_shuffled days _ _ (vm name e e' {m} {m'} cid one p rest) =
      elim (Bool-cases (text_beq name vm_name)) [
        | inl same ↦
            rw same (ap₂ (with_policy days) cid (get-Perm entity e.entities e'.entities one p))
        | inr other ↦ rw other (decided_shuffled days m m' rest)
      ]

-- Whatever the order of the VMs in the configuration, and of the entities of each, a request is
-- decided alike, provided that no VM and no entity of a VM is there twice.
pub resolve-Perm :
    (config config' : HostConfig) (between : HashMap VmEntry) (vm_name entity : Text)
    → IsMap config.vms
    → Perm config.vms between
    → IsShuffled between config'.vms
    → config.cert_validity_days ≡ config'.cert_validity_days
    → resolve config vm_name entity ≡ resolve config' vm_name entity
resolve-Perm config config' between vm_name entity one p shuffled days =
    resolve-decided vm_name entity config
    ∙ ap (decided vm_name entity config.cert_validity_days)
        (get-Perm vm_name config.vms between one p)
    ∙ decided_shuffled vm_name entity config.cert_validity_days between config'.vms shuffled
    ∙ ap (λ n. decided vm_name entity n (get config'.vms vm_name)) days
    ∙ sym (resolve-decided vm_name entity config')
